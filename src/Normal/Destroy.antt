-- ===== src/Normal/Destroy.antt =====
-- `destroyNormalCmd` of SaceNormalExcutor.
use sa_excutor.Common.{
  ℕ, ◌≡◌, refl, ◌∙◌, Bool, false, ◌||◌, inl, inr, List, [], ◌∷◌, none, some, arith, nat_eq,
  nat_eq_iff, ℕ_eq, if◌then◌else◌, ◌==◌, Option-cases, done,
}
use sa_excutor.Common.Map.{find, erase, find-erase, find-erase_self}
use sa_excutor.Types.{SaceClientIdentifier, Client_eq, SaceReaderMessage}
use sa_excutor.Process.{Closed}
use sa_excutor.Process.Close.{Ends, pclose_returns}
use sa_excutor.Normal.{
  CommandInfo, State, Env, info_closed, close_info, destroy_labels, destroy_normal_cmd,
}
use sa_excutor.Normal.Labels.{labels_of}
use sa_excutor.Normal.Invariant.{Inv, info_closed-Inv}
use sa_excutor.Normal.Keeps.{erase-Lists, relist-Inv}

-- Every child that is waited for ends.
abbrev pub AllEnd : Env → Type 0
AllEnd env = (fd : ℕ) → Ends (env.waits fd) env.fuel

unfoldable pub is_listed : ℕ → List ℕ → Bool
is_listed j [] = false
is_listed j (l ∷ ls) = nat_eq j l || is_listed j ls

pub close_info_returns :
    (env : Env) (l : ℕ) (i : CommandInfo) (s : State)
    → AllEnd env
    → (c : Closed) × (close_info env l i s ≡ done (info_closed l i c s))
unfolding close_info
close_info_returns env l i s ends =
    let (c, e) = pclose_returns (env.waits i.fd) env.fuel i.fd s.pidlist (ends i.fd) in
    (c, rw (e, close_info))

-- What the loop over the labels leaves.
abbrev Destroyed : List ℕ → State → State → Type 0
Destroyed labels s s' =
    Inv s'
    × (s'.client_cmd ≡ s.client_cmd)
    × ((j : ℕ) → find j s'.seq_cmd ≡ (if is_listed j labels then none else find j s.seq_cmd))

destroy_labels_gone :
    (env : Env) (l : ℕ) (labels : List ℕ) (s : State)
    → find l s.seq_cmd ≡ none
    → destroy_labels env (l ∷ labels) s ≡ destroy_labels env labels s
unfolding destroy_labels
destroy_labels_gone env l labels s gone = rw (gone, destroy_labels)

destroy_labels_here :
    (env : Env) (l : ℕ) (labels : List ℕ) (s s1 : State) (i : CommandInfo)
    → find l s.seq_cmd ≡ some i
    → close_info env l i s ≡ done s1
    → destroy_labels env (l ∷ labels) s ≡ destroy_labels env labels s1
unfolding destroy_labels
destroy_labels_here env l labels s s1 i here closed = rw (here, destroy_labels, closed)

destroy_labels_lem :
    (env : Env) (labels : List ℕ) (s : State)
    → AllEnd env
    → Inv s
    → (s' : State) × (destroy_labels env labels s ≡ done s') × Destroyed labels s s'
unfolding is_listed
destroy_labels_lem env [] s ends v = (s, unfold destroy_labels in refl, (v, refl, λ j. refl))
destroy_labels_lem env (l ∷ labels) s ends v = elim (Option-cases (find l s.seq_cmd)) [
  | inl gone ↦
      let (s', e, (v', clients, finds)) = destroy_labels_lem env labels s ends v in
      (
        s',
        destroy_labels_gone env l labels s gone ∙ e,
        (v', clients, λ j. ground (arith, finds j, nat_eq_iff j l)),
      )
  | inr (i, here) ↦
      let (c, closed) = close_info_returns env l i s ends in
      let s1 = info_closed l i c s in
      let (s', e, (v', clients, finds)) =
        destroy_labels_lem env labels s1 ends (info_closed-Inv s l i c v here) in
      (
        s',
        destroy_labels_here env l labels s s1 i here closed ∙ e,
        (v', clients, λ j. ground (arith, finds j, find-erase j l s.seq_cmd)),
      )
]

-- From tables in step, if every child that is waited for ends, `destroyNormalCmd` returns with
-- tables in step: the client has no list, and no label of its list leads to a command. Other clients'
-- lists and other labels lead where they led.
pub destroy_removes :
    (env : Env) (msg : SaceReaderMessage) (s : State)
    → AllEnd env
    → Inv s
    → (s' : State) × (destroy_normal_cmd env msg s ≡ done s')
      × Inv s'
      × (find msg.client s'.client_cmd ≡ none)
      × ((c : SaceClientIdentifier)
          → (c == msg.client) ≡ false
          → find c s'.client_cmd ≡ find c s.client_cmd)
      × ((j : ℕ)
          → find j s'.seq_cmd
            ≡ (if is_listed j (labels_of msg.client s.client_cmd) then none else find j s.seq_cmd))
unfolding destroy_normal_cmd is_listed
destroy_removes env msg s ends v = elim (Option-cases (find msg.client s.client_cmd)) [
  | inl idle ↦ (
    s,
    rw (idle, destroy_normal_cmd),
    v,
    idle,
    λ c other. refl,
    λ j. rw (idle, labels_of, is_listed),
  )
  | inr (labels, own) ↦
      let (s', e, (v', clients, finds)) = destroy_labels_lem env labels s ends v in
      (
        record s' { client_cmd = erase msg.client s'.client_cmd },
        rw (own, destroy_normal_cmd, e),
        relist-Inv s' _ v' (erase-Lists msg.client s'.client_cmd v'.lists),
        find-erase_self msg.client s'.client_cmd,
        λ c other. find-erase c msg.client s'.client_cmd ∙ rw (other, clients),
        λ j. rw (own, labels_of) (finds j),
      )
]
