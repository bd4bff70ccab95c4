-- ===== src/Normal/Invariant.antt =====
-- What it is for the vector and the map of SaceNormalExcutor to be in step.
use sa_excutor.Common.{
  ℕ, ◌≡◌, sym, ◌∙◌, ap, Bool, true, false, ◌⊎◌, inl, inr, List, [], ◌∷◌, some, arith, nat_eq,
  nat_eq_iff, ℕ_eq, All, All-map, All-map₂, Bool-cases,
}
use sa_excutor.Common.Map.{find, erase, find-erase}
use sa_excutor.Types.{SaceClientIdentifier, Client_eq}
use sa_excutor.Process.{Closed}
use sa_excutor.Normal.{CommandInfo, State, remove_vecotr_item, same_info, info_closed}
use sa_excutor.Normal.Labels.{labels_of, nonempty}

abbrev pub In : CommandInfo → List CommandInfo → Type 0
In i [] = ⊥
In i (x ∷ xs) = (i ≡ x) ⊎ In i xs

-- No two pointers of the vector are the same.
abbrev pub Distinct : List CommandInfo → Type 0
Distinct [] = Unit
Distinct (x ∷ xs) = All (λ y. same_info x y ≡ false) xs × Distinct xs

pub record Inv (s : State) : Type 0 where
  pub found : (l : ℕ) (i : CommandInfo) → find l s.seq_cmd ≡ some i → (i.label ≡ l) × In i s.running
  pub kept : All (λ i. find i.label s.seq_cmd ≡ some i) s.running
  pub distinct : Distinct s.running
  pub lists : (c : SaceClientIdentifier) → nonempty (labels_of c s.client_cmd) ≡ find c s.client_cmd

pub All-remove {κ} :
    (P : CommandInfo → Type κ) (t : CommandInfo → Bool) (xs : List CommandInfo)
    → All P xs
    → All P (remove_vecotr_item t xs)
unfolding remove_vecotr_item
All-remove P t [] h = tt
All-remove P t (x ∷ xs) h = elim (Bool-cases (t x)) [
  | inl e ↦ rw e h.1
  | inr e ↦ rw e (h.0, All-remove P t xs h.1)
]

Distinct-remove :
    (t : CommandInfo → Bool) (xs : List CommandInfo)
    → Distinct xs
    → Distinct (remove_vecotr_item t xs)
unfolding remove_vecotr_item
Distinct-remove t [] h = tt
Distinct-remove t (x ∷ xs) h = elim (Bool-cases (t x)) [
  | inl e ↦ rw e h.1
  | inr e ↦ rw e (All-remove _ t xs h.0, Distinct-remove t xs h.1)
]

-- The pointer that is removed is gone from a vector without repetition.
remove-gone :
    (i : CommandInfo) (xs : List CommandInfo)
    → Distinct xs
    → All (λ j. same_info i j ≡ false) (remove_vecotr_item (same_info i) xs)
unfolding remove_vecotr_item
remove-gone i [] h = tt
remove-gone i (x ∷ xs) h = elim (Bool-cases (same_info i x)) [
  | inl e ↦ rw e (All-map xs (λ y n. ground arith) h.0)
  | inr e ↦ rw e (e, remove-gone i xs h.1)
]

In-remove :
    (i j : CommandInfo) (xs : List CommandInfo)
    → same_info i j ≡ false
    → In j xs
    → In j (remove_vecotr_item (same_info i) xs)
unfolding remove_vecotr_item
In-remove i j [] e m = elim m [ ]
In-remove i j (x ∷ xs) e (inl p) = let apart : same_info i x ≡ false = rw p at e in rw apart (inl p)
In-remove i j (x ∷ xs) e (inr m) = elim (Bool-cases (same_info i x)) [
  | inl hit ↦ rw hit m
  | inr miss ↦ rw miss (inr (In-remove i j xs e m))
]

In-All {κ} :
    (P : CommandInfo → Type κ) (i : CommandInfo) (xs : List CommandInfo) → In i xs → All P xs → P i
In-All P i [] m h = elim m [ ]
In-All P i (x ∷ xs) (inl p) h = rw p h.0
In-All P i (x ∷ xs) (inr m) h = In-All P i xs m h.1

same_info_sym : (i j : CommandInfo) → same_info i j ≡ same_info j i
same_info_sym i j = ground arith

In-unique :
    (i j : CommandInfo) (xs : List CommandInfo)
    → Distinct xs
    → In i xs
    → In j xs
    → same_info i j ≡ true
    → i ≡ j
In-unique i j [] h m m' e = elim m [ ]
In-unique i j (x ∷ xs) h (inl p) (inl q) e = p ∙ sym q
In-unique i j (x ∷ xs) h (inl p) (inr m) e =
    cc (In-All (λ y. same_info x y ≡ false) j xs m h.0, p, e)
In-unique i j (x ∷ xs) h (inr m) (inl q) e =
    cc (In-All (λ y. same_info x y ≡ false) i xs m h.0, rw (same_info_sym i j, q) at e)
In-unique i j (x ∷ xs) h (inr m) (inr m') e = In-unique i j xs h.1 m m' e

-- Closing a command keeps the tables in step.
module _ (s : State) (l : ℕ) (i : CommandInfo) (c : Closed) (v : Inv s)
    (here : find l s.seq_cmd ≡ some i) where
  -- A command found elsewhere is another one.
  elsewhere :
      (j : ℕ) (k : CommandInfo)
      → find j s.seq_cmd ≡ some k
      → nat_eq j l ≡ false
      → same_info i k ≡ false
  elsewhere j k there apart = elim (Bool-cases (same_info i k)) [
    | inr e ↦ e
    | inl e ↦
        let same =
          In-unique i k s.running v.distinct (v.found l i here).1 (v.found j k there).1 e in
        let labels : j ≡ l =
          sym (v.found j k there).0 ∙ ap (λ i. i.label) (sym same) ∙ (v.found l i here).0 in
        ground (arith, labels)
  ]

  found_still :
      (j : ℕ) (k : CommandInfo)
      → find j (erase l s.seq_cmd) ≡ some k
      → (find j s.seq_cmd ≡ some k) × (nat_eq j l ≡ false)
  found_still j k there = ground (arith, find-erase j l s.seq_cmd, nat_eq_iff j l)

  kept_still :
      (k : CommandInfo)
      → find k.label s.seq_cmd ≡ some k
      → same_info i k ≡ false
      → find k.label (erase l s.seq_cmd) ≡ some k
  kept_still k there apart = ground (arith, find-erase k.label l s.seq_cmd, nat_eq_iff k.label l)

  pub info_closed-Inv : Inv (info_closed l i c s)
  info_closed-Inv = record {
    found = λ j k there.
        let (before, apart) = found_still j k there in
        let (labelled, inside) = v.found j k before in
        (labelled, In-remove i k s.running (elsewhere j k before apart) inside);
    kept =
        All-map₂ _ kept_still (All-remove _ (same_info i) s.running v.kept)
          (remove-gone i s.running v.distinct);
    distinct = Distinct-remove (same_info i) s.running v.distinct;
    lists = v.lists;
  }
