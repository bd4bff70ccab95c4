-- ===== src/Common/Map.antt =====
-- `std::map` as an association list: `insert` keeps the value of a key that is there already.
use mathlib.Core.Path.{◌≡◌, refl}
use mathlib.Core.Bool.{false}
use mathlib.Core.List.{List, [], ◌∷◌}
use mathlib.Core.Option
use mathlib.Core.Option.{Option, none, some}
use native.Mathlib.Omega.{arith}
use sa_excutor.Common.Tests.{if◌then◌else◌}
use sa_excutor.Common.Equality.{Key, ◌==◌, ==_refl}

abbrev pub Map {ℓ κ} : Type ℓ → Type κ → Type (ℓ ⊔ κ)
Map K V = List (K × V)

abbrev pub or_else {ℓ} : {A : Type ℓ} → A → Option A → A
or_else d none = d
or_else d (some a) = a

module _ {ℓ κ} {K : Type ℓ} {V : Type κ} ⦃e : Key K⦄ where
  unfoldable pub find : K → Map K V → Option V
  find k [] = none
  find k ((j, v) ∷ m) = if k == j then some v else find k m

  unfoldable pub insert : K → V → Map K V → Map K V
  insert k v [] = (k, v) ∷ []
  insert k v ((j, w) ∷ m) = if k == j then (j, w) ∷ m else (j, w) ∷ insert k v m

  unfoldable pub erase : K → Map K V → Map K V
  erase k [] = []
  erase k ((j, w) ∷ m) = let rest = erase k m in if k == j then rest else (j, w) ∷ rest

  -- A write through the iterator that `find` returned.
  unfoldable pub update : K → (V → V) → Map K V → Map K V
  update k f [] = []
  update k f ((j, w) ∷ m) = if k == j then (j, f w) ∷ m else (j, w) ∷ update k f m

module _ {ℓ κ} {K : Type ℓ} {V : Type κ} ⦃e : Key K⦄ where
  pub find-insert_new :
      (k : K) (v : V) (m : Map K V) → find k m ≡ none → find k (insert k v m) ≡ some v
  unfolding find insert
  find-insert_new k v [] h = rw ==_refl
  find-insert_new k v ((j, w) ∷ m) h = ground (arith, find-insert_new k v m)

  pub insert_present : (k : K) (v w : V) (m : Map K V) → find k m ≡ some w → insert k v m ≡ m
  unfolding find insert
  insert_present k v w [] h = ground arith
  insert_present k v w ((j, u) ∷ m) h = ground (arith, insert_present k v w m)

  pub find-insert_kept :
      (k j : K) (v w : V) (m : Map K V) → find k m ≡ some w → find k (insert j v m) ≡ some w
  unfolding find insert
  find-insert_kept k j v w [] h = absurd (cc)
  find-insert_kept k j v w ((i, u) ∷ m) h =
      ground (arith, find-insert_kept k j v w m, e.same_iff j i, e.same_iff k i)

  pub find-insert_ne :
      (j k : K) (v : V) (m : Map K V) → (j == k) ≡ false → find j (insert k v m) ≡ find j m
  unfolding find insert
  find-insert_ne j k v [] h = rw h
  find-insert_ne j k v ((i, w) ∷ m) h = ground (arith, find-insert_ne j k v m)

  pub find-erase :
      (j k : K) (m : Map K V) → find j (erase k m) ≡ (if j == k then none else find j m)
  unfolding find erase
  find-erase j k [] = ground arith
  find-erase j k ((i, w) ∷ m) =
      ground (arith, find-erase j k m, e.same_iff j k, e.same_iff k i, e.same_iff j i)

  pub find-erase_self : (k : K) (m : Map K V) → find k (erase k m) ≡ none
  find-erase_self k m = rw (find-erase, ==_refl)

  pub find-update :
      (j k : K) (f : V → V) (m : Map K V)
      → find j (update k f m) ≡ (if j == k then Option.map f (find j m) else find j m)
  unfolding find update
  find-update j k f [] = ground arith
  find-update j k f ((i, w) ∷ m) =
      ground (arith, find-update j k f m, e.same_iff j k, e.same_iff k i, e.same_iff j i)

  pub find-insert :
      (j k : K) (v : V) (m : Map K V)
      → find j (insert k v m) ≡ (if j == k then some (or_else v (find k m)) else find j m)
  unfolding find insert
  find-insert j k v [] = ground arith
  find-insert j k v ((i, w) ∷ m) =
      ground (arith, find-insert j k v m, e.same_iff j k, e.same_iff k i, e.same_iff j i)

  pub erase-update : (k : K) (f : V → V) (m : Map K V) → erase k (update k f m) ≡ erase k m
  unfolding erase update
  erase-update k f [] = refl
  erase-update k f ((i, w) ∷ m) = ground (arith, erase-update k f m)
