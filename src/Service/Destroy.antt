-- ===== src/Service/Destroy.antt =====
-- The destructor of SaceServiceExcutor.
use sa_excutor.Common.{
  ℕ, ◌≡◌, refl, false, inl, inr, List, [], ◌∷◌, none, arith, nat_eq, ℕ_eq, Str_eq, done,
}
use sa_excutor.Common.Map.{find, find-erase, find-erase_self}
use sa_excutor.Service.{State}
use sa_excutor.Service.Uninit.{destroyed, destroy_all, destroy}
use sa_excutor.Service.Scan.{In, IsAllocated}
use sa_excutor.Service.Invariant.{Distinct, Inv, Inv-IsAllocated, In-All}

-- The loop frees each address of a vector without repetition, and allocates nothing.
destroy_all_lem :
    (xs : List ℕ) (s : State)
    → Distinct xs
    → ((a : ℕ) → In a xs → IsAllocated s a)
    → (s' : State) × (destroy_all xs s ≡ done s')
      × ((a : ℕ) → In a xs → find a s'.heap ≡ none)
      × ((a : ℕ) → find a s.heap ≡ none → find a s'.heap ≡ none)
unfolding destroy_all
destroy_all_lem [] s d h = (s, refl, λ a m. elim m [ ], λ a gone. gone)
destroy_all_lem (x ∷ xs) s d h =
    let (i, found) = h x (inl refl) in
    let s₁ = destroyed x i s in
    let still : (a : ℕ) → In a xs → IsAllocated s₁ a = λ a m.
      let apart = In-All (λ y. nat_eq x y ≡ false) a xs m d.0 in
      let (j, there) = h a (inr m) in (j, ground (arith, find-erase a x s.heap)) in
    let (s', over, freed, gone) = destroy_all_lem xs s₁ d.1 still in
    (
      s',
      rw (destroy_all, found) over,
      λ a m. elim m [
        | inl here ↦ rw here (gone x (find-erase_self x s.heap))
        | inr later ↦ freed a later
      ],
      λ a none_there. gone a (ground (arith, find-erase a x s.heap)),
    )

-- From tables in step, the destructor returns: it empties the vector and the two maps, and frees
-- every service of the vector, none of them twice.
pub destroy_frees :
    (s : State)
    → Inv s
    → (s' : State) × (destroy s ≡ done s')
      × (s'.running ≡ [])
      × (s'.seq ≡ [])
      × (s'.names ≡ [])
      × ((a : ℕ) → In a s.running → find a s'.heap ≡ none)
unfolding destroy
destroy_frees s v =
    let (s', over, freed, _) = destroy_all_lem s.running s v.distinct (Inv-IsAllocated s v) in
    (record s' { running = []; seq = []; names = [] }, rw over refl, refl, refl, refl, freed)
