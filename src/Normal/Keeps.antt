-- ===== src/Normal/Keeps.antt =====
-- The handlers of SaceNormalExcutor, and its tables.
use sa_excutor.Common.{
  ℕ, ◌≡◌, refl, sym, ◌∙◌, ap, false, ◌⊎◌, inl, inr, List, [], ◌∷◌, ◌++◌, none, some, arith, nat_eq,
  nat_eq_iff, ℕ_eq, All, All-map,
}
use sa_excutor.Common.Map.{Map, find, insert, erase, find-insert, find-insert_new, find-erase}
use sa_excutor.Types.{SaceClientIdentifier, Client_eq, SaceWriter, SaceReaderMessage, SaceResult}
use sa_excutor.Process.{PidEntry, Opened}
use sa_excutor.Normal.{
  CommandInfo, State, Env, same_info, add_label, drop_label, new_label, new_info, started,
  write_result,
}
use sa_excutor.Normal.Labels.{labels_of, nonempty, find-add_label, find-drop_label}
use sa_excutor.Normal.Invariant.{Inv, In, Distinct}

abbrev pub Lists : Map SaceClientIdentifier (List ℕ) → Type 0
Lists m = (c : SaceClientIdentifier) → nonempty (labels_of c m) ≡ find c m

nonempty-append : (ls : List ℕ) (l : ℕ) → nonempty (ls ++ l ∷ []) ≡ some (ls ++ l ∷ [])
nonempty-append [] l = refl
nonempty-append (k ∷ ls) l = refl

pub add_label-Lists :
    (client : SaceClientIdentifier) (l : ℕ) (m : Map SaceClientIdentifier (List ℕ))
    → Lists m
    → Lists (add_label client l m)
add_label-Lists client l m v c =
    ground (arith, find-add_label c client l m, nonempty-append (labels_of client m) l, v c)

pub drop_label-Lists :
    (client : SaceClientIdentifier) (l : ℕ) (m : Map SaceClientIdentifier (List ℕ))
    → Lists m
    → Lists (drop_label client l m)
drop_label-Lists client l m v c = ground (arith, find-drop_label c client l m, v c)

pub erase-Lists :
    (client : SaceClientIdentifier) (m : Map SaceClientIdentifier (List ℕ))
    → Lists m
    → Lists (erase client m)
erase-Lists client m v c = ground (arith, find-erase c client m, v c)

All-append_last {κ} :
    (P : CommandInfo → Type κ) (xs : List CommandInfo) (x : CommandInfo)
    → All P xs
    → P x
    → All P (xs ++ x ∷ [])
All-append_last P [] x h p = (p, tt)
All-append_last P (y ∷ xs) x h p = (h.0, All-append_last P xs x h.1 p)

Distinct-append_last :
    (xs : List CommandInfo) (x : CommandInfo)
    → Distinct xs
    → All (λ y. same_info x y ≡ false) xs
    → Distinct (xs ++ x ∷ [])
Distinct-append_last [] x d h = (tt, tt)
Distinct-append_last (y ∷ xs) x d h =
    (All-append_last _ xs x d.0 (ground (arith, h.0)), Distinct-append_last xs x d.1 h.1)

In-append_left : (i x : CommandInfo) (xs : List CommandInfo) → In i xs → In i (xs ++ x ∷ [])
In-append_left i x [] m = elim m [ ]
In-append_left i x (y ∷ xs) (inl p) = inl p
In-append_left i x (y ∷ xs) (inr m) = inr (In-append_left i x xs m)

In-append_last : (x : CommandInfo) (xs : List CommandInfo) → In x (xs ++ x ∷ [])
In-append_last x [] = inl refl
In-append_last x (y ∷ xs) = inr (In-append_last x xs)

-- A start whose label and address are new.
abbrev pub IsNew : Env → SaceReaderMessage → State → Type 0
IsNew env msg s =
    (find (new_label env msg) s.seq_cmd ≡ none)
    × All (λ i. nat_eq env.addr i.addr ≡ false) s.running

module _ (env : Env) (msg : SaceReaderMessage) (writer : SaceWriter) (o : Opened) (s : State)
    (v : Inv s) (new : IsNew env msg s) where
  abbrev info : CommandInfo
  info = new_info env msg writer o

  found_new :
      (j : ℕ) (k : CommandInfo)
      → find j (insert (new_label env msg) info s.seq_cmd) ≡ some k
      → ((j ≡ new_label env msg) × (k ≡ info)) ⊎ (find j s.seq_cmd ≡ some k)
  found_new j k there =
      ground
        (arith, find-insert j (new_label env msg) info s.seq_cmd, nat_eq_iff j (new_label env msg))

  kept_new :
      (k : CommandInfo)
      → find k.label s.seq_cmd ≡ some k
      → find k.label (insert (new_label env msg) info s.seq_cmd) ≡ some k
  kept_new k there = ground (
    arith,
    find-insert k.label (new_label env msg) info s.seq_cmd,
    nat_eq_iff k.label (new_label env msg),
  )

  pub started-Inv : Inv (started env msg writer o s)
  unfolding started
  started-Inv = record {
    found = λ j k there. elim (found_new j k there) [
      | inl (here, this) ↦
          (ap (λ i. i.label) this ∙ sym here, rw this (In-append_last info s.running))
      | inr before ↦
          let (labelled, inside) = v.found j k before in
          (labelled, In-append_left k info s.running inside)
    ];
    kept =
        All-append_last _ s.running info (All-map s.running kept_new v.kept)
          (find-insert_new (new_label env msg) info s.seq_cmd new.0);
    distinct = Distinct-append_last s.running info v.distinct new.1;
    lists = add_label-Lists msg.client (new_label env msg) s.client_cmd v.lists;
  }

-- Only the lists, or only the processes and the effects, change.
pub relist-Inv :
    (s : State) (m : Map SaceClientIdentifier (List ℕ))
    → Inv s
    → Lists m
    → Inv (record s { client_cmd = m })
relist-Inv s m v h = record { found = v.found; kept = v.kept; distinct = v.distinct; lists = h }

pub sent-Inv :
    (s : State) (writer : SaceWriter) (r : SaceResult) (pids : List PidEntry)
    → Inv s
    → Inv (write_result writer r (record s { pidlist = pids }))
sent-Inv s writer r pids v = record {
  found = v.found;
  kept = v.kept;
  distinct = v.distinct;
  lists = v.lists;
}
