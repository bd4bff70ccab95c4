-- ===== src/Manager/Held.antt =====
-- A map from labels to places in a store of objects: every place that it names holds an object with
-- that label, and the store is filled below `next` only.
use sa_excutor.Common.{
  ℕ, ◌+◌, ◌<◌, ◌≡◌, sym, ◌∙◌, [], ◌∷◌, none, some, nat_eq, nat_eq_iff, ℕ_eq, if◌then◌else◌, arith,
  inl, inr, Bool-cases, Option-cases,
}
use sa_excutor.Common.Map.{
  Map, find, insert, erase, update, find-erase, find-update, find-insert, or_else,
}

pub record Held {A : Type 0} (label_of : A → ℕ) (labels : Map ℕ ℕ) (objs : Map ℕ A) (next : ℕ)
    : Type 0 where
  pub place :
      (label id : ℕ)
      → find label labels ≡ some id
      → (o : A) × (find id objs ≡ some o) × (label_of o ≡ label)
  pub below : (id : ℕ) (o : A) → find id objs ≡ some o → id < next

module _ {A : Type 0} {label_of : A → ℕ} where
  pub Held-empty : Held label_of [] [] 0
  unfolding find
  Held-empty = record { place = λ label id h. absurd (cc); below = λ id o h. absurd (cc) }

  pub Held-next :
      {labels : Map ℕ ℕ} {objs : Map ℕ A} {next : ℕ}
      → Held label_of labels objs next
      → Held label_of labels objs (next + 1)
  Held-next h = record { place = h.place; below = λ id o e. omega (arith, h.below id o e) }

  find_new :
      {labels : Map ℕ ℕ} {objs : Map ℕ A} {next : ℕ} (o : A) (id : ℕ) (old : A)
      → Held label_of labels objs next
      → find id objs ≡ some old
      → find id ((next, o) ∷ objs) ≡ some old
  unfolding find
  find_new o id old h e = ground (arith, h.below id old e)

  pub Held-alloc :
      {labels : Map ℕ ℕ} {objs : Map ℕ A} {next : ℕ} (o : A)
      → Held label_of labels objs next
      → Held label_of labels ((next, o) ∷ objs) (next + 1)
  unfolding find
  Held-alloc o h = record {
    place = λ label id e.
        let (old, at, same) = h.place label id e in (old, find_new o id old h at, same);
    below = λ id old e. ground (arith, h.below id old);
  }

  place-Held :
      {labels : Map ℕ ℕ} {objs : Map ℕ A} {next : ℕ} (label id i : ℕ) (o : A)
      → find id objs ≡ some o
      → label_of o ≡ label
      → Held label_of labels objs next
      → some (or_else id (find label labels)) ≡ some i
      → (o' : A) × (find i objs ≡ some o') × (label_of o' ≡ label)
  place-Held {labels} {objs} label id i o at same h e = elim (Option-cases (find label labels)) [
    | inl none_held ↦ let here : id ≡ i = ground (arith) in (o, rw (← here) at, same)
    | inr (old, held) ↦ h.place label i (ground arith)
  ]

  place-insert :
      {labels : Map ℕ ℕ} {objs : Map ℕ A} {next : ℕ} (label id l i : ℕ) (o : A)
      → find id objs ≡ some o
      → label_of o ≡ label
      → Held label_of labels objs next
      → (if nat_eq l label then some (or_else id (find label labels)) else find l labels) ≡ some i
      → (o' : A) × (find i objs ≡ some o') × (label_of o' ≡ l)
  place-insert {labels} label id l i o at same h e = elim (Bool-cases (nat_eq l label)) [
    | inl t ↦
        let (o', at', same') = place-Held label id i o at same h (ground arith) in
        (o', at', same' ∙ sym ((nat_eq_iff l label).0 t))
    | inr f ↦ h.place l i (ground arith)
  ]

  pub Held-insert :
      {labels : Map ℕ ℕ} {objs : Map ℕ A} {next : ℕ} (label id : ℕ) (o : A)
      → find id objs ≡ some o
      → label_of o ≡ label
      → Held label_of labels objs next
      → Held label_of (insert label id labels) objs next
  Held-insert {labels} label id o at same h = record {
    place =
        λ l i e. place-insert label id l i o at same h (sym (find-insert l label id labels) ∙ e);
    below = h.below;
  }

  pub Held-erase :
      {labels : Map ℕ ℕ} {objs : Map ℕ A} {next : ℕ} (label : ℕ)
      → Held label_of labels objs next
      → Held label_of (erase label labels) objs next
  Held-erase {labels} label h = record {
    place = λ l i e. h.place l i (erased l i (sym (find-erase l label labels) ∙ e));
    below = h.below;
  }
    where
      erased :
          (l i : ℕ)
          → (if nat_eq l label then none else find l labels) ≡ some i
          → find l labels ≡ some i
      erased l i e = ground arith

  pub Held-update :
      {labels : Map ℕ ℕ} {objs : Map ℕ A} {next : ℕ} (id : ℕ) (f : A → A)
      → ((o : A) → label_of (f o) ≡ label_of o)
      → Held label_of labels objs next
      → Held label_of labels (update id f objs) next
  Held-update {objs} id f keeps h = record {
    place = λ l i e.
        let (o, at, same) = h.place l i e in
        (
          if nat_eq i id then f o else o,
          ground (arith, find-update i id f objs),
          ground (arith, keeps o),
        );
    below = λ i o e. let (old, at) = found_before i id o f objs e in h.below i old at;
  }
    where
      found_before :
          (i id : ℕ) (o : A) (f : A → A) (objs : Map ℕ A)
          → find i (update id f objs) ≡ some o
          → (old : A) × (find i objs ≡ some old)
      found_before i id o f objs e = elim (Option-cases (find i objs)) [
        | inl lost ↦ absurd (ground (arith, find-update i id f objs))
        | inr (old, at) ↦ (old, at)
      ]
