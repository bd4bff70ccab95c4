-- ===== src/Event/Restart.antt =====
-- SaceEvent (saced/SaceEvent.cpp): an event that dies by a signal and is to be restarted.
use sa_excutor.Common.{
  ℕ, ◌≡◌, refl, ap, true, false, Str, [], ◌∷◌, none, some, nat_eq, Str_eq, length, done, ◌>>=◌,
}
use sa_excutor.Common.Map.{Map, find, insert, insert_present, find-erase_self}
use sa_excutor.Common.Bytes.{of_le_bytes}
use sa_excutor.Types.{SaceResult, SaceStatusResponse, event_flag_restart}
use sa_excutor.Types.Command.{SaceResultStatus, SaceResultType, SaceResponseStatus}
use sa_excutor.Event.{Service, State, is_member, set_erase, fire}
use sa_excutor.Event.Handle.{finish_event, handle_response, started, forward_result, handle_result}

module _ (property_get : Str → Str) (response : SaceStatusResponse) (s : State) (service : Service)
    (runs : find response.name s.running_events ≡ some response.label)
    (known : find response.name s.events ≡ some service)
    (flag : service.cmd.cmd_flags ≡ event_flag_restart)
    (signal : response.status ≡ SaceResponseStatus.signal)
    (none_failed : s.failed_events ≡ []) where
  abbrev failed : State
  failed = record s { failed_events = response.name ∷ [] }

  abbrev fired : Map Str Service × State
  fired = fire property_get s.events (record s { failed_events = [] })

-- The START of the new process is answered while the old label is still there.
module _ (s : State) (result : SaceResult) (response : SaceStatusResponse) (old : ℕ)
    (runs : find result.name s.running_events ≡ some old)
    (starting : is_member result.name s.starting_events ≡ true)
    (succeeds : result.result_status ≡ SaceResultStatus.ok)
    (labelled : result.result_type ≡ SaceResultType.label) (bytes : length result.result_extra ≡ 8)
    (same_name : response.name ≡ result.name) (other : nat_eq old response.label ≡ false) where
  abbrev recorded : State
  recorded = record s {
    starting_events = set_erase result.name s.starting_events;
    running_events = insert result.name (of_le_bytes result.result_extra) s.running_events;
  }

  started-recorded : started result s ≡ done recorded
  unfolding started
  started-recorded = rw (started, labelled, bytes) refl

  abbrev answered : State
  answered = forward_result result recorded

  result-answered : handle_result result s ≡ done answered
  unfolding handle_result
  result-answered = rw (handle_result, starting, succeeds, started-recorded) refl

  response-finished : handle_response response answered ≡ finish_event response answered
  unfolding handle_response forward_result
  response-finished =
      let kept : insert result.name (of_le_bytes result.result_extra) s.running_events
          ≡ s.running_events =
        insert_present result.name _ old s.running_events runs in
      let at_old : find response.name answered.running_events ≡ some old =
        rw (same_name, kept) runs in
      rw (handle_response, at_old, other) refl

  -- An event whose old label is still among the running events when the START of its new process is
  -- answered OK with a label of 8 bytes: the old label stays. When a response comes for the event with
  -- a label other than the old one, as the new process's is, nothing is restarted and the event is
  -- forgotten, by whatever status it ended.
  pub restarted_once :
      (s' : State) × ((handle_result result s >>= λ t. done (handle_response response t)) ≡ done s')
      × (s'.failed_events ≡ s.failed_events)
      × (find response.name s'.running_events ≡ none)
  unfolding finish_event forward_result
  restarted_once = (
    finish_event response answered,
    rw result-answered (ap done response-finished),
    refl,
    find-erase_self response.name answered.running_events,
  )
