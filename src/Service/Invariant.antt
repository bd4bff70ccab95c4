-- ===== src/Service/Invariant.antt =====
-- What it is for the vector, the two maps and the memory of SaceServiceExcutor to be in step.
use sa_excutor.Common.{
  ℕ, zero, suc, ◌≡◌, refl, sym, ap, ◌∙◌, true, false, ◌⊎◌, inl, inr, List, [], ◌∷◌, Option, some,
  arith, Str, nat_eq, nat_eq_iff, ℕ_eq, Str_eq, str_eq, str_eq_iff, All, Bool-cases,
}
use sa_excutor.Common.Map.{find, erase, update, or_else, find-erase, find-update}
use sa_excutor.Service.{ServiceInfo, State, Effect, put}
use sa_excutor.Service.Monitor.{is_waited, get_elem?, remove_at}
use sa_excutor.Service.Scan.{In, IsAllocated, released}

abbrev pub Distinct : List ℕ → Type 0
Distinct [] = Unit
Distinct (x ∷ xs) = All (λ y. nat_eq x y ≡ false) xs × Distinct xs

-- The service at an address of the vector: allocated, found by its label and its name, and live.
abbrev pub Entry : State → ℕ → Type 0
Entry s a =
    (i : ServiceInfo) × (find a s.heap ≡ some i)
    × (find i.label s.seq ≡ some a)
    × (find i.name s.names ≡ some a)
    × (is_waited i.state ≡ true)

pub record Inv (s : State) : Type 0 where
  pub entry : (a : ℕ) → In a s.running → Entry s a
  pub by_label :
      (l a : ℕ)
      → find l s.seq ≡ some a
      → In a s.running × ((i : ServiceInfo) → find a s.heap ≡ some i → i.label ≡ l)
  pub by_name :
      (n : Str) (a : ℕ)
      → find n s.names ≡ some a
      → In a s.running × ((i : ServiceInfo) → find a s.heap ≡ some i → i.name ≡ n)
  pub distinct : Distinct s.running

pub Inv-IsAllocated : (s : State) → Inv s → (a : ℕ) → In a s.running → IsAllocated s a
Inv-IsAllocated s v a m = let (i, found, _, _, _) = v.entry a m in (i, found)

pub In-All {κ} : (P : ℕ → Type κ) (a : ℕ) (xs : List ℕ) → In a xs → All P xs → P a
In-All P a [] m h = elim m [ ]
In-All P a (x ∷ xs) (inl p) h = rw p h.0
In-All P a (x ∷ xs) (inr m) h = In-All P a xs m h.1

All-In {κ} : (P : ℕ → Type κ) (xs : List ℕ) → ((a : ℕ) → In a xs → P a) → All P xs
All-In P [] h = tt
All-In P (x ∷ xs) h = (h x (inl refl), All-In P xs (λ a m. h a (inr m)))

pub In-get_elem? : (k a : ℕ) (xs : List ℕ) → get_elem? xs k ≡ some a → In a xs
unfolding get_elem?
In-get_elem? k a [] here = ground arith
In-get_elem? zero a (x ∷ xs) here = inl (ground (arith, here))
In-get_elem? (suc k) a (x ∷ xs) here = inr (In-get_elem? k a xs here)

In-remove_at : (k a : ℕ) (xs : List ℕ) → In a (remove_at k xs) → In a xs
unfolding remove_at
In-remove_at k a [] m = elim m [ ]
In-remove_at zero a (x ∷ xs) m = inr m
In-remove_at (suc k) a (x ∷ xs) (inl p) = inl p
In-remove_at (suc k) a (x ∷ xs) (inr m) = inr (In-remove_at k a xs m)

In-remove_at_ne :
    (k a b : ℕ) (xs : List ℕ)
    → get_elem? xs k ≡ some b
    → nat_eq a b ≡ false
    → In a xs
    → In a (remove_at k xs)
unfolding remove_at get_elem?
In-remove_at_ne k a b [] here e m = elim m [ ]
In-remove_at_ne zero a b (x ∷ xs) here e (inl p) = absurd (ground (arith, here, p, e))
In-remove_at_ne zero a b (x ∷ xs) here e (inr m) = m
In-remove_at_ne (suc k) a b (x ∷ xs) here e (inl p) = inl p
In-remove_at_ne (suc k) a b (x ∷ xs) here e (inr m) = inr (In-remove_at_ne k a b xs here e m)

-- The address that is removed is gone.
remove_at-gone :
    (k a b : ℕ) (xs : List ℕ)
    → Distinct xs
    → get_elem? xs k ≡ some b
    → In a (remove_at k xs)
    → nat_eq a b ≡ false
unfolding remove_at get_elem?
remove_at-gone k a b [] d here m = elim m [ ]
remove_at-gone zero a b (x ∷ xs) d here m =
    let apart = In-All (λ y. nat_eq x y ≡ false) a xs m d.0 in ground (arith, here, apart)
remove_at-gone (suc k) a b (x ∷ xs) d here (inl p) =
    let apart = In-All (λ y. nat_eq x y ≡ false) b xs (In-get_elem? k b xs here) d.0 in
    ground (arith, p, apart)
remove_at-gone (suc k) a b (x ∷ xs) d here (inr m) = remove_at-gone k a b xs d.1 here m

Distinct-remove_at : (k : ℕ) (xs : List ℕ) → Distinct xs → Distinct (remove_at k xs)
unfolding remove_at
Distinct-remove_at k [] d = tt
Distinct-remove_at zero (x ∷ xs) d = d.1
Distinct-remove_at (suc k) (x ∷ xs) d = (
  All-In _ (remove_at k xs) (λ a m. In-All _ a xs (In-remove_at k a xs m) d.0),
  Distinct-remove_at k xs d.1,
)

some-inj {ℓ} : {A : Type ℓ} (a b : A) → Option.some a ≡ some b → a ≡ b
some-inj a b e = ap (or_else a) e

-- What an address and its names lead to, when the service there is known.
pub at_label :
    (s : State) (a : ℕ) (i : ServiceInfo)
    → Inv s
    → In a s.running
    → find a s.heap ≡ some i
    → (find i.label s.seq ≡ some a) × (find i.name s.names ≡ some a)
at_label s a i v m found =
    let (j, there, labelled, named, _) = v.entry a m in
    let same : j ≡ i = some-inj j i (sym there ∙ found) in
    (rw (sym same) labelled, rw (sym same) named)

-- A write to a service that keeps its name, its label and its life.
module _ (s : State) (a : ℕ) (i j : ServiceInfo) (effects : List Effect) (v : Inv s)
    (found : find a s.heap ≡ some i) (same_label : i.label ≡ j.label) (same_name : i.name ≡ j.name)
    (live : is_waited j.state ≡ true) where
  stored :
      (b : ℕ) (x : ServiceInfo)
      → find b (update a (λ _. j) s.heap) ≡ some x
      → ((b ≡ a) × (x ≡ j)) ⊎ (find b s.heap ≡ some x)
  stored b x there = ground (arith, find-update b a (λ _. j) s.heap, nat_eq_iff b a)

  pub put-Inv : Inv (record (put a j s) { effects = effects })
  put-Inv = record {
    entry = λ b m. elim (Bool-cases (nat_eq b a)) [
      | inl e ↦
          let here : b ≡ a = (nat_eq_iff b a).0 e in
          let names = at_label s a i v (rw (sym here) m) found in
          (
            j,
            ground (arith, find-update b a (λ _. j) s.heap),
            rw (sym same_label, here) names.0,
            rw (sym same_name, here) names.1,
            live,
          )
      | inr e ↦
          let (x, there, labelled, named, lives) = v.entry b m in
          (x, ground (arith, find-update b a (λ _. j) s.heap), labelled, named, lives)
    ];
    by_label = λ l b here. (
      (v.by_label l b here).0,
      λ x there. elim (stored b x there) [
        | inl (at, is) ↦
            ap (λ x. x.label) is
            ∙ sym same_label
            ∙ (v.by_label l b here).1 i (ap (λ b. find b s.heap) at ∙ found)
        | inr before ↦ (v.by_label l b here).1 x before
      ],
    );
    by_name = λ n b here. (
      (v.by_name n b here).0,
      λ x there. elim (stored b x there) [
        | inl (at, is) ↦
            ap (λ x. x.name) is
            ∙ sym same_name
            ∙ (v.by_name n b here).1 i (ap (λ b. find b s.heap) at ∙ found)
        | inr before ↦ (v.by_name n b here).1 x before
      ],
    );
    distinct = v.distinct;
  }

-- A service that ended is released.
module _ (s : State) (k a : ℕ) (i : ServiceInfo) (effects : List Effect) (v : Inv s)
    (here : get_elem? s.running k ≡ some a) (found : find a s.heap ≡ some i) where
  names : (find i.label s.seq ≡ some a) × (find i.name s.names ≡ some a)
  names = at_label s a i v (In-get_elem? k a s.running here) found

  kept_label :
      (l b : ℕ) → nat_eq b a ≡ false → find l s.seq ≡ some b → find l (erase i.label s.seq) ≡ some b
  kept_label l b apart there =
      ground (arith, find-erase l i.label s.seq, nat_eq_iff l i.label, names.0)

  kept_name :
      (n : Str) (b : ℕ)
      → nat_eq b a ≡ false
      → find n s.names ≡ some b
      → find n (erase i.name s.names) ≡ some b
  kept_name n b apart there =
      ground (arith, find-erase n i.name s.names, str_eq_iff n i.name, names.1)

  before_label :
      (l b : ℕ)
      → find l (erase i.label s.seq) ≡ some b
      → (find l s.seq ≡ some b) × (nat_eq l i.label ≡ false)
  before_label l b there = ground (arith, find-erase l i.label s.seq)

  before_name :
      (n : Str) (b : ℕ)
      → find n (erase i.name s.names) ≡ some b
      → (find n s.names ≡ some b) × (str_eq n i.name ≡ false)
  before_name n b there = ground (arith, find-erase n i.name s.names)

  before_heap :
      (b : ℕ) (x : ServiceInfo) → find b (erase a s.heap) ≡ some x → find b s.heap ≡ some x
  before_heap b x there = ground (arith, find-erase b a s.heap)

  -- An address where another service is.
  apart_of :
      (b : ℕ) (P : ServiceInfo → Type 0)
      → ((x : ServiceInfo) → find b s.heap ≡ some x → P x)
      → ((p : P i) → ⊥)
      → nat_eq b a ≡ false
  apart_of b P holds fails = elim (Bool-cases (nat_eq b a)) [
    | inr e ↦ e
    | inl e ↦ absurd (fails (holds i (ap (λ b. find b s.heap) ((nat_eq_iff b a).0 e) ∙ found)))
  ]

  pub released-Inv : Inv (released k a i effects s)
  released-Inv = record {
    entry = λ b m.
        let (x, there, labelled, named, lives) = v.entry b (In-remove_at k b s.running m) in
        let apart = remove_at-gone k b a s.running v.distinct here m in
        (
          x,
          ground (arith, find-erase b a s.heap),
          kept_label x.label b apart labelled,
          kept_name x.name b apart named,
          lives,
        );
    by_label = λ l b there.
        let (before, other) = before_label l b there in
        let (inside, is_label) = v.by_label l b before in
        (
          In-remove_at_ne k b a s.running here
              (apart_of b _ is_label (λ p. ground (arith, other, p))) inside,
          λ x h. is_label x (before_heap b x h),
        );
    by_name = λ n b there.
        let (before, other) = before_name n b there in
        let (inside, is_name) = v.by_name n b before in
        (
          In-remove_at_ne k b a s.running here
              (apart_of b _ is_name (λ p. ground (arith, other, sym p, str_eq_iff n i.name)))
              inside,
          λ x h. is_name x (before_heap b x h),
        );
    distinct = Distinct-remove_at k s.running v.distinct;
  }
