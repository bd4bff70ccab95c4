-- ===== src/Event/Handle.antt =====
-- The handlers of SaceEvent: `excuteNormal` and the two `handle_result`.
use sa_excutor.Common.{
  ℕ, Bool, true, false, not, Str, List, [], ◌∷◌, Option, none, some, nat_eq, str_eq, Str_eq, length,
  if◌then◌else◌, Run, done, undefined, ◌>>=◌,
}
use sa_excutor.Common.Map.{find, insert, erase}
use sa_excutor.Common.Bytes.{of_le_bytes}
use sa_excutor.Params.{SaceCommandParams}
use sa_excutor.Params.Trigger.{Trigger, any_triggered, parse_event_params}
use sa_excutor.Types.{
  SaceWriter, SaceCommand, SaceResult, new_result, SaceStatusResponse, SaceReaderMessage,
  event_type_add, event_type_del, event_type_info, event_flag_restart, service_cmd_info,
}
use sa_excutor.Types.Command.{SaceResultStatus, SaceResultType, SaceResponseStatus}
use sa_excutor.Service.Info.{get_by_name}
use sa_excutor.Event.{
  Service, State, Effect, sent, responded, posted, written, emit, is_member, set_insert, set_erase,
  clone_service_command, service_message, start_event, stop_event, add_writers,
}

abbrev pub first_result : SaceCommand → SaceResult
first_result cmd = record new_result {
  sequence = cmd.sequence;
  name = cmd.name;
  result_status = SaceResultStatus.fail;
  result_type = SaceResultType.nothing;
}

abbrev pub with_status : SaceResultStatus → SaceCommand → SaceResult
with_status status cmd = record (first_result cmd) { result_status = status }

-- The `bool` that the `extra` of a DEL is copied into; more than one byte overflows it.
abbrev stop_flag : List ℕ → Run Bool
stop_flag [] = done false
stop_flag (b ∷ []) = done (not (nat_eq b 0))
stop_flag (b ∷ c ∷ bs) = undefined

-- The end of a DEL that asks to stop the event, if it runs.
unfoldable pub stop_running : Bool → SaceCommand → SaceWriter → State → State
unfolding stop_event add_writers
stop_running false cmd writer s = s
stop_running true cmd writer s = elim (find cmd.name s.running_events) [
  | none ↦ s
  | some label ↦ add_writers cmd.name writer (stop_event label cmd.sequence s)
]

unfoldable pub delete_event : SaceCommand → SaceWriter → State → Run State
unfolding stop_running
delete_event cmd writer s = stop_flag cmd.extra >>= λ stop. elim (find cmd.name s.events) [
  | none ↦ done (emit (sent writer (first_result cmd)) s)
  | some _ ↦ done (
      emit (sent writer (with_status SaceResultStatus.ok cmd)) (
        emit written
          (stop_running stop cmd writer (record s { events = erase cmd.name s.events }))))
]

-- The triggers of an ADD; parameters that are no SaceEventParams are cast all the same.
unfoldable pub triggers_of : Option SaceCommandParams → Run (List Trigger)
triggers_of none = done []
triggers_of (some p) = elim p.event [
  | none ↦ undefined
  | some e ↦ elim (parse_event_params e) [ none ↦ undefined | some ts ↦ done ts ]
]

-- An ADD with at least one trigger; a trigger that fires at once starts the event.
unfoldable pub added : (Str → Str) → SaceCommand → List Trigger → State → State
unfolding start_event
added property_get cmd triggers s =
    let (now, fired) = any_triggered property_get triggers in
    let service : Service = record { triggers = now; cmd = cmd } in
    let s' = if fired then start_event service s else s in
    record s' { events = insert cmd.name service s'.events }

unfoldable pub add_event : (Str → Str) → SaceCommand → SaceWriter → State → Run State
unfolding triggers_of added
add_event property_get cmd writer s = elim (find cmd.name s.events) [
  | some _ ↦ done (emit (sent writer (with_status SaceResultStatus.exists cmd)) s)
  | none ↦ triggers_of cmd.command_params >>= λ triggers. elim triggers [
    | [] ↦ done (emit (sent writer (first_result cmd)) s)
    | t ∷ ts ↦ done (
        emit (sent writer (with_status SaceResultStatus.ok cmd))
          (emit written (added property_get cmd (t ∷ ts) s)))
  ]
]

-- An INFO is passed on to the service executor, and answered when its result comes back.
unfoldable pub info_event : SaceCommand → SaceWriter → State → Run State
unfolding add_writers clone_service_command
info_event cmd writer s =
    if not (str_eq cmd.command get_by_name)
    then done (emit (sent writer (first_result cmd)) s)
    else elim (find cmd.name s.running_events) [
      | none ↦ done (emit (sent writer (first_result cmd)) s)
      | some _ ↦
          let asked : SaceCommand = record (clone_service_command cmd) {
            cmd_type = service_cmd_info;
          } in
          done
            (emit (posted (service_message asked s.event_writer)) (add_writers cmd.name writer s))
    ]

unfoldable pub excute_normal : (Str → Str) → SaceReaderMessage → State → Run State
unfolding delete_event add_event info_event
excute_normal property_get msg s = elim msg.writer [
  | none ↦ undefined
  | some writer ↦
      if nat_eq msg.cmd.cmd_type event_type_del
      then delete_event msg.cmd writer s
      else if nat_eq msg.cmd.cmd_type event_type_add
      then add_event property_get msg.cmd writer s
      else if nat_eq msg.cmd.cmd_type event_type_info
      then info_event msg.cmd writer s
      else done (emit (sent writer (first_result msg.cmd)) (emit written s))
]

abbrev pub writers_of : Str → State → List SaceWriter
writers_of name s = elim (find name s.writers) [ none ↦ [] | some ws ↦ ws ]

unfoldable pub send_to : (SaceWriter → Effect) → List SaceWriter → List Effect → List Effect
send_to message [] effects = effects
send_to message (w ∷ ws) effects = send_to message ws (message w ∷ effects)

-- Whether the event is to be restarted.
unfoldable pub restart_event : Str → State → Bool
restart_event name s = elim (find name s.events) [
  | none ↦ false
  | some service ↦ nat_eq service.cmd.cmd_flags event_flag_restart
]

-- The label `writer` of the response's handler: the writers are told, and forgotten.
unfoldable pub finish_event : SaceStatusResponse → State → State
unfolding send_to
finish_event response s = record s {
  running_events = erase response.name s.running_events;
  writers = erase response.name s.writers;
  effects = send_to (λ w. responded w response) (writers_of response.name s) s.effects;
}

abbrev is_signal : SaceResponseStatus → Bool
is_signal SaceResponseStatus.signal = true
is_signal _ = false

-- `handle_result (SaceStatusResponse &)`.
unfoldable pub handle_response : SaceStatusResponse → State → State
unfolding restart_event finish_event
handle_response response s = elim (find response.name s.running_events) [
  | none ↦ finish_event response s
  | some label ↦
      if not (nat_eq label response.label)
      then finish_event response s
      else if is_signal response.status
      then (if restart_event response.name s
          then record s { failed_events = set_insert response.name s.failed_events }
          else finish_event response s)
      else finish_event response s
]

abbrev is_ok : SaceResultStatus → Bool
is_ok SaceResultStatus.ok = true
is_ok _ = false

abbrev is_label : SaceResultType → Bool
is_label SaceResultType.label = true
is_label _ = false

unfoldable pub forward_result : SaceResult → State → State
unfolding send_to
forward_result result s = record s {
  effects = send_to (λ w. sent w result) (writers_of result.name s) s.effects;
}

-- A START that succeeded; a label has 8 bytes, and any other length leaves it undefined.
unfoldable pub started : SaceResult → State → Run State
unfolding set_erase
started result s =
    if is_label result.result_type
    then (if nat_eq (length result.result_extra) 8
        then done (record s {
          starting_events = set_erase result.name s.starting_events;
          running_events = insert result.name (of_le_bytes result.result_extra) s.running_events;
        })
        else undefined)
    else done s

-- `handle_result (SaceResult &)`.
unfoldable pub handle_result : SaceResult → State → Run State
unfolding started forward_result start_event is_member
handle_result result s =
    if not (is_member result.name s.starting_events)
    then done (forward_result result s)
    else if is_ok result.result_status
    then (started result s >>= λ s'. done (forward_result result s'))
    else elim (find result.name s.events) [
      | some service ↦ done (start_event service s)
      | none ↦ done (forward_result result s)
    ]
