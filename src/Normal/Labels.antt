-- ===== src/Normal/Labels.antt =====
-- The lists of labels by client, and the removal of an item from a vector.
use sa_excutor.Common.{
  ℕ, ◌≡◌, refl, ap, Bool, true, false, List, [], ◌∷◌, ◌++◌, Option, none, some, arith, nat_eq,
  if◌then◌else◌, ◌==◌, All, Option-cases, inl, inr,
}
use sa_excutor.Common.Map.{Map, find, find-insert, find-erase, find-update}
use sa_excutor.Types.{SaceClientIdentifier, Client_eq, client_eq_iff}
use sa_excutor.Normal.{remove_vecotr_item, store_left, add_label, drop_label}

abbrev Clients : Type 0
Clients = Map SaceClientIdentifier (List ℕ)

abbrev pub labels_of : SaceClientIdentifier → Clients → List ℕ
labels_of c m = elim (find c m) [ none ↦ [] | some ls ↦ ls ]

abbrev pub nonempty : List ℕ → Option (List ℕ)
nonempty [] = none
nonempty (l ∷ ls) = some (l ∷ ls)

pub find-add_label :
    (c client : SaceClientIdentifier) (l : ℕ) (m : Clients)
    → find c (add_label client l m)
      ≡ (if c == client then some (labels_of client m ++ l ∷ []) else find c m)
unfolding add_label
find-add_label c client l m = ground (
  arith,
  find-insert c client (l ∷ []) m,
  find-update c client (λ ls. ls ++ l ∷ []) m,
  client_eq_iff c client,
)

pub labels_of-add_label :
    (client : SaceClientIdentifier) (l : ℕ) (m : Clients)
    → labels_of client (add_label client l m) ≡ labels_of client m ++ l ∷ []
labels_of-add_label client l m =
    ground (arith, find-add_label client client l m, (client_eq_iff client client).1 refl)

find-store_left :
    (c client : SaceClientIdentifier) (ls : List ℕ) (m : Clients) {old : List ℕ}
    → find client m ≡ some old
    → find c (store_left client ls m) ≡ (if c == client then nonempty ls else find c m)
unfolding store_left
find-store_left c client [] m h = find-erase c client m
find-store_left c client (l ∷ ls) m h =
    ground (arith, find-update c client (λ _. l ∷ ls) m, client_eq_iff c client)

pub find-drop_label :
    (c client : SaceClientIdentifier) (l : ℕ) (m : Clients)
    → find c (drop_label client l m) ≡ (
        if c == client
        then nonempty (remove_vecotr_item (nat_eq l) (labels_of client m))
        else find c m)
unfolding drop_label
find-drop_label c client l m = elim (Option-cases (find client m)) [
  | inl e ↦ rw (e, drop_label) (ground (arith, client_eq_iff c client))
  | inr (ls, e) ↦
      let own : labels_of client m ≡ ls = ground arith in
      rw (e, drop_label, own) (find-store_left c client (remove_vecotr_item (nat_eq l) ls) m e)
]

module _ {ℓ} {A : Type ℓ} (is_item : A → Bool) where
  pub remove-append_last :
      (xs : List A) (x : A)
      → All (λ y. is_item y ≡ false) xs
      → is_item x ≡ true
      → remove_vecotr_item is_item (xs ++ x ∷ []) ≡ xs
  unfolding remove_vecotr_item
  remove-append_last [] x h e = rw e
  remove-append_last (y ∷ xs) x h e = rw (h.0) (ap (◌∷◌ y) (remove-append_last xs x h.1 e))
