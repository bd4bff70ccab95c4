-- ===== src/Service/Reports.antt =====
-- What the writers of a service are told, and what is left of the service.
use sa_excutor.Common.{
  ℕ, ◌≡◌, refl, sym, ap, ◌∙◌, true, ◌||◌, List, ◌∷◌, none, some, arith, ℕ_eq, Str_eq, ==_refl, Run,
  done,
}
use sa_excutor.Common.Map.{find, find-update, find-erase_self, erase-update}
use sa_excutor.Common.Bytes.{replicate}
use sa_excutor.Types.{
  SaceWriter, SaceCommand, SaceResult, SaceReaderMessage, SaceStatusResponse, service_cmd_stop,
}
use sa_excutor.Types.Command.{SaceResultStatus, SaceResponseStatus}
use sa_excutor.Service.{
  ServiceInfo, State, Env, Effect, sent, kill, WaitAnswer, signaled, emit, put, send_response, Is,
  sigterm,
}
use sa_excutor.Service.Info.{ServiceState, paused, running, finishing_user, finished_user}
use sa_excutor.Service.Monitor.{
  is_waited, ended, response_of, get_elem?, remove_at, monitor_service_status,
}
use sa_excutor.Service.Scan.{CalmBut, released, monitor-ended, put-IsAllocated}
use sa_excutor.Service.Handle.{with_status, with_service, stop_info, dispatch, excute_normal}
use sa_excutor.Service.Invariant.{Inv, Inv-IsAllocated, In-get_elem?, at_label}

module _ (waits : ℕ → WaitAnswer) (k a : ℕ) (i : ServiceInfo) (s : State) (v : Inv s)
    (here : get_elem? s.running k ≡ some a) (found : find a s.heap ≡ some i)
    (calm : CalmBut k waits) where
  lives : is_waited i.state ≡ true
  lives =
      let (j, there, _, _, alive) = v.entry a (In-get_elem? k a s.running here) in
      ground (arith, alive, sym there ∙ found)

  -- From tables in step, the service at position `k` ends and no other wait of the pass answers:
  -- its writers get the response in order, and its name, its label and its memory are gone.
  pub service_freed :
      (state : ServiceState) (response : SaceStatusResponse)
      → ended (waits k) i ≡ some (state, response)
      → (s' : State) × (monitor_service_status waits s ≡ done s')
        × (s'.effects ≡ send_response response i.writer s.effects)
        × (s'.running ≡ remove_at k s.running)
        × (find i.name s'.names ≡ none)
        × (find i.label s'.seq ≡ none)
        × (find a s'.heap ≡ none)
  service_freed state response over = (
    _,
    monitor-ended waits k a i s here found calm (Inv-IsAllocated s v) (state, response) lives over,
    refl,
    refl,
    find-erase_self i.name s.names,
    find-erase_self i.label s.seq,
    find-erase_self a s.heap,
  )

pub with_service-found :
    (body : ℕ → ServiceInfo → State × SaceResult) (cmd : SaceCommand) (s : State) (a : ℕ)
    (i : ServiceInfo)
    → find cmd.label s.seq ≡ some a
    → find a s.heap ≡ some i
    → with_service body cmd s ≡ done (body a i)
with_service-found body cmd s a i here found = rw (with_service, here, found) refl

abbrev stopping : ServiceInfo → ServiceInfo
stopping i = record i { state = finishing_user }

-- The effects of a STOP whose service ends by SIGTERM in the same call.
abbrev pub told : SaceReaderMessage → SaceWriter → ServiceInfo → State → List Effect
told msg writer i s =
    send_response (response_of SaceResponseStatus.user (replicate 4 0) (stopping i)) i.writer
      (sent writer (with_status SaceResultStatus.ok msg.cmd) ∷ kill i.pid sigterm ∷ s.effects)

-- The message that stops a service, and the end that follows in the same call.
module _ (env : Env) (waits : ℕ → WaitAnswer) (msg : SaceReaderMessage) (writer : SaceWriter)
    (k a : ℕ) (i : ServiceInfo) (s : State) (v : Inv s) (from : msg.writer ≡ some writer)
    (here : get_elem? s.running k ≡ some a) (found : find a s.heap ≡ some i)
    (calm : CalmBut k waits) (is_stop : msg.cmd.cmd_type ≡ service_cmd_stop)
    (its_label : msg.cmd.label ≡ i.label)
    (live : (Is i.state running || Is i.state paused) ≡ true) where
  abbrev stopped : State
  stopped = emit (kill i.pid sigterm) (put a (stopping i) s)

  stop_info-live :
      Run.done (stop_info msg.cmd s a i) ≡ done (stopped, with_status SaceResultStatus.ok msg.cmd)
  unfolding stop_info
  stop_info-live = rw live refl

  stop-dispatch :
      dispatch env msg.cmd writer s ≡ done (stopped, with_status SaceResultStatus.ok msg.cmd)
  unfolding dispatch
  stop-dispatch =
      let labelled : find msg.cmd.label s.seq ≡ some a =
        rw its_label (at_label s a i v (In-get_elem? k a s.running here) found).0 in
      rw is_stop
        (with_service-found (stop_info msg.cmd s) msg.cmd s a i labelled found ∙ stop_info-live)

  -- From tables in step, a STOP for a live service whose child then ends by SIGTERM, the only end
  -- that the pass sees: one SIGTERM, the result OK to the caller, the response USER to every writer
  -- of the service, and the service is released.
  pub stop_told :
      waits k ≡ signaled sigterm
      → excute_normal env waits msg s ≡ done (released k a i (told msg writer i s) s)
  unfolding excute_normal ended
  stop_told terminated =
      let s' : State = emit (sent writer (with_status SaceResultStatus.ok msg.cmd)) stopped in
      let stored : find a s'.heap ≡ some (stopping i) = rw (find-update, ==_refl, found) refl in
      let over : ended (waits k) (stopping i)
          ≡ some (finished_user, response_of SaceResponseStatus.user (replicate 4 0) (stopping i)) =
        ap (λ w. ended w (stopping i)) terminated in
      rw (from, stop-dispatch)
        (monitor-ended waits k a (stopping i) s' here stored calm
            (λ b m. put-IsAllocated waits a b (stopping i) s (Inv-IsAllocated s v b m))
            (finished_user, response_of SaceResponseStatus.user (replicate 4 0) (stopping i)) refl
            over
          ∙ ap (λ h. done (record (released k a i (told msg writer i s) s) { heap = h }))
              (erase-update a (λ _. (stopping i)) s.heap))
