-- ===== src/Service/Restart.antt =====
-- `monitor_service_status` after a RESTART, and when two services end in one pass.
use sa_excutor.Common.{
  ℕ, ◌≡◌, refl, ap, ◌∙◌, true, false, inl, inr, [], ◌∷◌, ◌++◌, none, some, arith, nat_eq, ℕ_eq,
  Str_eq, if◌then◌else◌, ==_refl, Bool-cases, Run, done, undefined,
}
use sa_excutor.Common.Map.{find, find-update, find-erase_self}
use sa_excutor.Types.{SaceWriter, SaceReaderMessage, SaceStatusResponse, service_cmd_restart}
use sa_excutor.Types.Command.{SaceResultStatus}
use sa_excutor.Service.{
  ServiceInfo, State, Env, sent, kill, WaitAnswer, exited, emit, put, send_response, sigcont,
}
use sa_excutor.Service.Info.{ServiceState, paused, running, finished, died}
use sa_excutor.Service.Monitor.{
  is_waited, ended, get_elem?, remove_at, scan, visit, visit_info, collect, freed,
  monitor_service_status,
}
use sa_excutor.Service.Scan.{visit-found, collect_one-found}
use sa_excutor.Service.Handle.{with_status, restart_info, dispatch, excute_normal}
use sa_excutor.Service.Reports.{with_service-found}

-- The service that a visit saw end, and the state after the visit.
abbrev gone : ServiceInfo → ServiceState × SaceStatusResponse → ServiceInfo
gone i r = record i { state = r.0 }

abbrev visited : ℕ → ServiceInfo → ServiceState × SaceStatusResponse → State → State
visited a i r s = record (put a (gone i r) s) { effects = send_response r.1 i.writer s.effects }

module _ (w : WaitAnswer) (a : ℕ) (i : ServiceInfo) (s : State)
    (r : ServiceState × SaceStatusResponse) (found : find a s.heap ≡ some i) where
  visit-live :
      is_waited i.state ≡ true → ended w i ≡ some r → visit w a s ≡ done (visited a i r s, true)
  unfolding visit_info
  visit-live live over =
      let seen : visit_info w a i s ≡ (visited a i r s, true) = rw (live, over) refl in
      visit-found w a i s found ∙ ap done seen

  visit-dead : is_waited i.state ≡ false → visit w a s ≡ done (s, false)
  unfolding visit_info
  visit-dead dead =
      let seen : visit_info w a i s ≡ (s, false) = rw dead refl in
      visit-found w a i s found ∙ ap done seen

  visited-stored : find a (visited a i r s).heap ≡ some (gone i r)
  visited-stored = rw (find-update, ==_refl, found) refl

-- A pass over a vector that holds one pointer twice: the second visit sees an ended service.
pass_twice :
    (waits : ℕ → WaitAnswer) (a : ℕ) (i : ServiceInfo) (s : State)
    (r : ServiceState × SaceStatusResponse)
    → s.running ≡ a ∷ a ∷ []
    → find a s.heap ≡ some i
    → is_waited i.state ≡ true
    → ended (waits 0) i ≡ some r
    → is_waited r.0 ≡ false
    → monitor_service_status waits s ≡ done (freed 0 a (gone i r) (visited a i r s))
unfolding monitor_service_status scan collect get_elem?
pass_twice waits a i s r twice found live over dead =
    let s₁ = visited a i r s in
    let stored = visited-stored (waits 0) a i s r found in
    let scanned : scan waits 0 (a ∷ a ∷ []) s ≡ done (s₁, 0 ∷ []) =
      rw
        (
          visit-live (waits 0) a i s r found live over,
          visit-dead (waits 1) a (gone i r) s₁ r stored dead,
        )
        refl in
    let head : get_elem? s.running 0 ≡ some a = rw twice refl in
    rw (ap (λ xs. scan waits 0 xs s) twice ∙ scanned)
      (collect_one-found 0 a (gone i r) s₁ head stored)

scan_freed :
    (waits : ℕ → WaitAnswer) (a : ℕ) (s : State)
    → find a s.heap ≡ none
    → scan waits 0 (a ∷ []) s ≡ undefined
unfolding scan visit
scan_freed waits a s freed_it = rw (visit, freed_it) refl

-- A pass over a freed service.
pass_freed :
    (waits : ℕ → WaitAnswer) (a : ℕ) (s : State)
    → s.running ≡ a ∷ []
    → find a s.heap ≡ none
    → monitor_service_status waits s ≡ undefined
unfolding monitor_service_status
pass_freed waits a s here freed_it =
    rw (ap (λ xs. scan waits 0 xs s) here ∙ scan_freed waits a s freed_it) refl

ended_dead : (code : ℕ) → is_waited (if nat_eq code 0 then finished else died) ≡ false
ended_dead code = elim (Bool-cases (nat_eq code 0)) [ inl e ↦ rw e refl | inr e ↦ rw e refl ]

-- A RESTART pushes the pointer on the vector a second time.
module _ (env : Env) (waits : ℕ → WaitAnswer) (msg : SaceReaderMessage) (writer : SaceWriter)
    (a code : ℕ) (i : ServiceInfo) (s : State) (from : msg.writer ≡ some writer)
    (alone : s.running ≡ a ∷ []) (found : find a s.heap ≡ some i)
    (is_restart : msg.cmd.cmd_type ≡ service_cmd_restart)
    (labelled : find msg.cmd.label s.seq ≡ some a) (is_paused : i.state ≡ paused) where
  abbrev resumed : ServiceInfo
  resumed = record i { state = running }

  abbrev restarted : State
  restarted = record (emit (kill i.pid sigcont) (put a resumed s)) { running = s.running ++ a ∷ [] }

  restart_info-paused :
      Run.done (restart_info msg.cmd s a i)
      ≡ done (restarted, with_status SaceResultStatus.ok msg.cmd)
  unfolding restart_info
  restart_info-paused = rw is_paused refl

  restart-dispatch :
      dispatch env msg.cmd writer s ≡ done (restarted, with_status SaceResultStatus.ok msg.cmd)
  unfolding dispatch
  restart-dispatch = rw is_restart (
      with_service-found (restart_info msg.cmd s) msg.cmd s a i labelled found
      ∙ restart_info-paused)

  -- A service that is paused and alone gets a RESTART, and its child exits, seen by the first of
  -- the two visits that the same call then makes: the call returns, its vector keeps a pointer to
  -- the freed service, and every later pass reads freed memory.
  pub restart_dangles :
      waits 0 ≡ exited code
      → (s' : State) × (excute_normal env waits msg s ≡ done s')
        × (s'.running ≡ a ∷ [])
        × (find a s'.heap ≡ none)
        × ((later : ℕ → WaitAnswer) → monitor_service_status later s' ≡ undefined)
  unfolding excute_normal remove_at ended
  restart_dangles over =
      let s' : State = emit (sent writer (with_status SaceResultStatus.ok msg.cmd)) restarted in
      let doubled : s'.running ≡ a ∷ a ∷ [] = rw alone refl in
      let stored : find a s'.heap ≡ some resumed = rw (find-update, ==_refl, found) refl in
      let end = ap (λ w. ended w resumed) over in
      let answered : excute_normal env waits msg s ≡ monitor_service_status waits s' =
        rw (from, restart-dispatch) refl in
      let pass = pass_twice waits a resumed s' _ doubled stored refl end (ended_dead code) in
      let kept : remove_at 0 s'.running ≡ a ∷ [] = rw doubled refl in
      (
        _,
        answered ∙ pass,
        kept,
        find-erase_self a _,
        λ later. pass_freed later a _ kept (find-erase_self a _),
      )

-- Two live services and no other, at different addresses, and both waits of a pass tell an end:
-- the second erase is through an iterator that the first made invalid, so the pass is undefined.
pub two_ended :
    (waits : ℕ → WaitAnswer) (a b : ℕ) (i j : ServiceInfo) (s : State)
    (r q : ServiceState × SaceStatusResponse)
    → s.running ≡ a ∷ b ∷ []
    → nat_eq b a ≡ false
    → find a s.heap ≡ some i
    → find b s.heap ≡ some j
    → is_waited i.state ≡ true
    → is_waited j.state ≡ true
    → ended (waits 0) i ≡ some r
    → ended (waits 1) j ≡ some q
    → monitor_service_status waits s ≡ undefined
unfolding monitor_service_status scan collect get_elem?
two_ended waits a b i j s r q both apart found_a found_b live_a live_b over_a over_b =
    let s₁ = visited a i r s in
    let kept : find b s₁.heap ≡ some j = rw (find-update, apart) found_b in
    let s₂ = visited b j q s₁ in
    let scanned : scan waits 0 (a ∷ b ∷ []) s ≡ done (s₂, 0 ∷ 1 ∷ []) =
      rw
        (
          visit-live (waits 0) a i s r found_a live_a over_a,
          visit-live (waits 1) b j s₁ q kept live_b over_b,
        )
        refl in
    let head : get_elem? s.running 0 ≡ some a = rw both refl in
    let stored : find a s₂.heap ≡ some (gone i r) =
      (let apart' : nat_eq a b ≡ false = ground arith in
        rw (find-update, apart') (visited-stored (waits 0) a i s r found_a)) in
    let erased = collect_one-found 0 a (gone i r) s₂ head stored in
    rw (ap (λ xs. scan waits 0 xs s) both ∙ scanned, erased) refl
