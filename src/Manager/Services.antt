-- ===== src/Manager/Services.antt =====
-- The queries and requests of SaceManager for services and events.
use sa_excutor.Common.{
  ℕ, Bool, true, false, Str, [], ◌∷◌, Option, none, some, nat_eq, length, ℕ_eq, if◌then◌else◌, Run,
  done, undefined, ◌>>=◌,
}
use sa_excutor.Common.Map.{insert}
use sa_excutor.Params.{SaceCommandParams}
use sa_excutor.Types.{
  sequence_to_label, SaceCommand, SaceResult, type_service, type_event, service_cmd_start,
  service_cmd_info, service_flag_normal, event_type_add, event_type_del, event_type_info,
  event_flag_none, cmd_flag_in,
}
use sa_excutor.Types.Command.{SaceResultStatus, SaceResultType}
use sa_excutor.Service.Info.{of_image, get_by_name}
use sa_excutor.Client.{ErrorCode, result_to_error, SaceServiceObj, is_ok}
use sa_excutor.Manager.{
  Manager, Env, send, base_command, live_service, failed_service, keep_service, chosen,
}

unfoldable pub info_command : Env → Str → SaceCommand
info_command env name = record (base_command env 0) {
  type = type_service;
  cmd_type = service_cmd_info;
  cmd_flags = service_flag_normal;
  command = get_by_name;
  name = name;
}

unfoldable pub event_info_command : Env → Str → SaceCommand
event_info_command env name = record (base_command env 1) {
  type = type_event;
  cmd_type = event_type_info;
  cmd_flags = event_flag_none;
  command = get_by_name;
  name = name;
}

-- `sizeof(ServiceInfo)`: the answer is copied over a struct on the stack that nothing has set.
abbrev pub info_size : ℕ
info_size = 208

unfoldable pub described_service : Env → SaceResult → Run SaceServiceObj
described_service env r =
    let info = of_image r.result_extra in
    if nat_eq (length r.result_extra) info_size
    then done (live_service env info.label info.name info.cmd)
    else undefined

-- A query after its result.
unfoldable pub queried :
    Env → Str → ℕ → SaceResult → SaceResultStatus → SaceResultType → Run SaceServiceObj
unfolding described_service
queried env name sequence r SaceResultStatus.ok SaceResultType.extra = described_service env r
queried env name sequence r SaceResultStatus.ok _ =
    done (failed_service env ErrorCode.err_unknown name name (sequence_to_label sequence 0))
queried env name sequence r status _ =
    done (failed_service env (result_to_error status) name name (sequence_to_label sequence 0))

-- `queryService` and `queryEventService`, which differ in the command.
unfoldable pub query : Env → Str → SaceCommand → Manager → Run (Manager × SaceServiceObj)
unfolding send queried
query env name cmd m =
    let (m', r) = send env cmd m in
    queried env name cmd.sequence r r.result_status r.result_type >>= λ o. done (m', o)

unfoldable pub start_service_command :
    Env → Str → Str → Option SaceCommandParams → Manager → SaceCommand
unfolding chosen
start_service_command env name cmd param m = record (base_command env 2) {
  type = type_service;
  cmd_type = service_cmd_start;
  cmd_flags = service_flag_normal;
  name = name;
  command = cmd;
  command_params = chosen param m.service_param;
}

abbrev pub is_fine : ErrorCode → Bool
is_fine ErrorCode.err_ok = true
is_fine _ = false

unfoldable pub hold : SaceServiceObj → Manager → Manager × ℕ
hold o m =
    let (m', id) = keep_service o m in (record m' { services = insert o.label id m'.services }, id)

-- The START of a service that no query found. The object of the last query is there already, so
-- the error of the START is not used.
unfoldable pub start_missing :
    Env → Str → Option Str → Option SaceCommandParams → SaceServiceObj → Manager → Run (Manager × ℕ)
unfolding start_service_command send hold
start_missing env name none param old m = undefined
start_missing env name (some cmd) param old m =
    let (m', r) = send env (start_service_command env name cmd param m) m in
    done (
      if is_ok r.result_status
      then hold (live_service env r.label name cmd) m'
      else keep_service old m')

-- `checkService`; a null `cmd` is `none`.
unfoldable pub check_service :
    Env → Str → Option Str → Option SaceCommandParams → Manager → Run (Manager × ℕ)
unfolding query info_command event_info_command hold start_missing
check_service env name cmd param m = do
  (m₁, found) ← query env name (info_command env name) m
  (if is_fine found.error then done (hold found m₁) else (do
    (m₂, event) ← query env name (event_info_command env name) m₁
    (if is_fine event.error
        then done (hold event m₂)
        else start_missing env name cmd param event m₂)))

-- A null `param` is replaced here by the default.
unfoldable pub add_event : Env → Str → Str → Option SaceCommandParams → Manager → Manager × Bool
unfolding send
add_event env name cmd param m =
    let (m', r) =
      send env
        (record (base_command env 0) {
          type = type_event;
          cmd_type = event_type_add;
          cmd_flags = event_flag_none;
          command = cmd;
          name = name;
          command_params = some (elim param [ none ↦ m.event_param | some p ↦ p ]);
        })
        m in
    (m', is_ok r.result_status)

-- The flags keep what `init` wrote for a normal command: SACE_CMD_FLAG_IN, the same byte as
-- SACE_EVENT_FLAG_NONE.
unfoldable pub delete_event : Env → Str → Bool → Manager → Manager × Bool
unfolding send
delete_event env name stop m =
    let (m', r) =
      send env
        (record (base_command env 0) {
          type = type_event;
          cmd_type = event_type_del;
          cmd_flags = cmd_flag_in;
          name = name;
          extra = (if stop then 1 else 0) ∷ [];
        })
        m in
    (m', is_ok r.result_status)
