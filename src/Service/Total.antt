-- ===== src/Service/Total.antt =====
-- `excuteNormal` of SaceServiceExcutor, and its tables.
use sa_excutor.Common.{
  ℕ, ◌≤◌, ◌≡◌, refl, false, not, ◌||◌, inl, inr, some, arith, nat_eq, ℕ_eq, Str_eq, str_eq,
  Bool-cases, Option-cases, length, ltb, Run, done,
}
use sa_excutor.Common.Map.{find}
use sa_excutor.Types.{
  SaceWriter, SaceCommand, SaceResult, SaceReaderMessage, service_cmd_start, service_cmd_stop,
  service_cmd_pause, service_cmd_restart, service_cmd_info,
}
use sa_excutor.Service.{ServiceInfo, State, Env, WaitAnswer, sent, emit, Is}
use sa_excutor.Service.Info.{running, paused, get_by_name}
use sa_excutor.Service.Scan.{CalmBut}
use sa_excutor.Service.Handle.{
  with_service, start_service, stop_info, pause_info, handle_service_info, dispatch, excute_normal,
}
use sa_excutor.Service.Invariant.{Inv, put-Inv}
use sa_excutor.Service.Keeps.{KeepsInv, IsNew, started-Inv, monitor_keeps}

-- A branch returns a state with its tables in step, and a result.
abbrev pub Answers : Run (State × SaceResult) → Type 0
Answers run = (r : State × SaceResult) × (run ≡ done r) × Inv r.0

module _ (cmd : SaceCommand) (s : State) (v : Inv s) where
  stop-Inv : (a : ℕ) (i : ServiceInfo) → find a s.heap ≡ some i → Inv (stop_info cmd s a i).0
  unfolding stop_info
  stop-Inv a i found = elim (Bool-cases (not (Is i.state running || Is i.state paused))) [
    | inl e ↦ rw e v
    | inr e ↦ rw e (put-Inv s a i _ _ v found refl refl refl)
  ]

  pause-Inv : (a : ℕ) (i : ServiceInfo) → find a s.heap ≡ some i → Inv (pause_info cmd s a i).0
  unfolding pause_info
  pause-Inv a i found = elim (Bool-cases (Is i.state running)) [
    | inl e ↦ rw e (put-Inv s a i _ _ v found refl refl refl)
    | inr e ↦ rw e v
  ]

  with_service-Answers :
      (body : ℕ → ServiceInfo → State × SaceResult)
      → ((a : ℕ) (i : ServiceInfo) → find a s.heap ≡ some i → Inv (body a i).0)
      → Answers (with_service body cmd s)
  with_service-Answers body keeps = elim (Option-cases (find cmd.label s.seq)) [
    | inl gone ↦ rw (with_service, gone) (_, refl, v)
    | inr (a, here) ↦
        let (i, found, _, _, _) = v.entry a (v.by_label cmd.label a here).0 in
        rw (with_service, here, found) (body a i, refl, keeps a i found)
  ]

  info-Answers : (writer : SaceWriter) → Answers (handle_service_info cmd writer s)
  unfolding handle_service_info
  info-Answers writer = elim (Bool-cases (str_eq cmd.command get_by_name)) [
    | inr e ↦ rw e (_, refl, v)
    | inl e ↦ elim (Option-cases (find cmd.name s.names)) [
      | inl gone ↦ rw (e, gone) (_, refl, v)
      | inr (a, here) ↦
          let (i, found, _, _, lives) = v.entry a (v.by_name cmd.name a here).0 in
          elim (Bool-cases (not (nat_eq i.flags cmd.cmd_flags))) [
            | inl other ↦ rw (e, here, found, other) (_, refl, v)
            | inr same ↦
                rw (e, here, found, same) (_, refl, put-Inv s a i _ _ v found refl refl lives)
          ]
    ]
  ]

  start-Answers :
      (env : Env) (writer : SaceWriter)
      → IsNew env cmd s
      → length cmd.command ≤ 128
      → Answers (start_service env cmd writer s)
  unfolding start_service
  start-Answers env writer new fits = elim (Option-cases (find cmd.name s.names)) [
    | inr (a, here) ↦ rw (start_service, here) (_, refl, v)
    | inl unnamed ↦
        let short : ltb 128 (length cmd.command) ≡ false = ground arith in
        elim (Option-cases env.fork) [
          | inl e ↦ rw (start_service, unnamed, short, e) (_, refl, v)
          | inr (pid, e) ↦
              rw (start_service, unnamed, short, e)
                (_, refl, started-Inv env cmd writer pid s v new unnamed)
        ]
  ]

-- What a command must meet: no RESTART, a command that fits in the buffer, an address and a label
-- that are not in use.
abbrev pub IsSafe : Env → SaceCommand → State → Type 0
IsSafe env cmd s =
    (nat_eq cmd.cmd_type service_cmd_restart ≡ false) × (length cmd.command ≤ 128) × IsNew env cmd s

pub dispatch-Answers :
    (env : Env) (cmd : SaceCommand) (writer : SaceWriter) (s : State)
    → Inv s
    → IsSafe env cmd s
    → Answers (dispatch env cmd writer s)
unfolding dispatch
dispatch-Answers env cmd writer s v (other, fits, new) =
    elim (Bool-cases (nat_eq cmd.cmd_type service_cmd_start)) [
      | inl e ↦ rw e (start-Answers cmd s v env writer new fits)
      | inr n ↦ elim (Bool-cases (nat_eq cmd.cmd_type service_cmd_stop)) [
        | inl e ↦ rw (n, e) (with_service-Answers cmd s v (stop_info cmd s) (stop-Inv cmd s v))
        | inr n' ↦ elim (Bool-cases (nat_eq cmd.cmd_type service_cmd_pause)) [
          | inl e ↦
              rw (n, n', e) (with_service-Answers cmd s v (pause_info cmd s) (pause-Inv cmd s v))
          | inr n'' ↦ elim (Bool-cases (nat_eq cmd.cmd_type service_cmd_info)) [
            | inl e ↦ rw (n, n', n'', other, e) (info-Answers cmd s v writer)
            | inr n''' ↦ rw (n, n', n'', other, n''') (_, refl, v)
          ]
        ]
      ]
    ]

-- From tables in step, a message with a writer and a command that is no RESTART, is at most 128
-- bytes long and gets an address and a label not in use: `excuteNormal` returns with its tables in
-- step, if at most one wait of its last pass answers.
pub service_returns :
    (env : Env) (waits : ℕ → WaitAnswer) (k : ℕ) (msg : SaceReaderMessage) (writer : SaceWriter)
    (s : State)
    → msg.writer ≡ some writer
    → Inv s
    → IsSafe env msg.cmd s
    → CalmBut k waits
    → KeepsInv (excute_normal env waits msg s)
unfolding excute_normal
service_returns env waits k msg writer s from v safe calm =
    let (r, answer, after) = dispatch-Answers env msg.cmd writer s v safe in
    let sent_too : Inv (emit (sent writer r.1) r.0) = record {
      entry = after.entry;
      by_label = after.by_label;
      by_name = after.by_name;
      distinct = after.distinct;
    } in
    rw (from, answer) (monitor_keeps waits k _ sent_too calm)
