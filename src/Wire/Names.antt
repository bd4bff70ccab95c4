-- ===== src/Wire/Names.antt =====
-- The names that the log gives to commands, results and responses (libsace/SaceTypes.cpp).
use sa_excutor.Common.{ℕ, Str, codes, [], ◌++◌, nat_eq, if◌then◌else◌}
use sa_excutor.Common.Map.{or_else}
use sa_excutor.Params.{int_to_string}
use sa_excutor.Params.Text.{to_string}
use sa_excutor.Types.{
  SaceCommand, SaceResult, SaceStatusResponse, type_normal, type_service, type_event,
  service_cmd_info, service_cmd_stop, service_cmd_start, service_cmd_pause, service_cmd_restart,
  service_flag_normal, service_flag_event, normal_cmd_start, normal_cmd_close, cmd_flag_in,
  cmd_flag_out, event_flag_none, event_flag_restart, event_type_add, event_type_del,
  event_type_info,
}
use sa_excutor.Types.Command.{
  SaceResultStatus, SaceResultType, SaceResponseStatus, SaceResponseType,
}

unfoldable pub map_cmd_type_str : ℕ → Str
map_cmd_type_str type =
    if nat_eq type type_normal
    then codes "SACE_TYPE_NORMAL"
    else if nat_eq type type_service
    then codes "SACE_TYPE_SERVICE"
    else if nat_eq type type_event
    then codes "SACE_TYPE_EVENT"
    else codes "UNKNOWN"

unfoldable pub map_service_cmd_type_str : ℕ → Str
map_service_cmd_type_str type =
    if nat_eq type service_cmd_info
    then codes "SACE_SERVICE_CMD_INFO"
    else if nat_eq type service_cmd_stop
    then codes "SACE_SERVICE_CMD_STOP"
    else if nat_eq type service_cmd_start
    then codes "SACE_SERVICE_CMD_START"
    else if nat_eq type service_cmd_pause
    then codes "SACE_SERVICE_CMD_PAUSE"
    else if nat_eq type service_cmd_restart
    then codes "SACE_SERVICE_CMD_RESTART"
    else codes "UNKNOWN"

unfoldable pub map_service_flag_str : ℕ → Str
map_service_flag_str type =
    if nat_eq type service_flag_normal
    then codes "SACE_SERVICE_FLAG_NORMAL"
    else if nat_eq type service_flag_event
    then codes "SACE_SERVICE_FLAG_EVENT"
    else codes "UNKNOWN"

unfoldable pub map_normal_cmd_type_str : ℕ → Str
map_normal_cmd_type_str type =
    if nat_eq type normal_cmd_start
    then codes "SACE_NORMAL_CMD_START"
    else if nat_eq type normal_cmd_close
    then codes "SACE_NORMAL_CMD_CLOSE"
    else codes "UNKNOWN"

unfoldable pub map_normal_cmd_flag_str : ℕ → Str
map_normal_cmd_flag_str type =
    if nat_eq type cmd_flag_in
    then codes "SACE_CMD_FLAG_IN"
    else if nat_eq type cmd_flag_out
    then codes "SACE_CMD_FLAG_OUT"
    else codes "UNKNOWN"

unfoldable pub map_event_flag_str : ℕ → Str
map_event_flag_str type =
    if nat_eq type event_flag_restart
    then codes "SACE_EVENT_FLAG_RESTART"
    else if nat_eq type event_flag_none
    then codes "SACE_EVENT_FLAG_NONE"
    else codes "UNKNOWN"

unfoldable pub map_event_type_str : ℕ → Str
map_event_type_str type =
    if nat_eq type event_type_add
    then codes "SACE_EVENT_TYPE_ADD"
    else if nat_eq type event_type_del
    then codes "SACE_EVENT_TYPE_DEL"
    else if nat_eq type event_type_info
    then codes "SACE_EVENT_TYPE_INFO"
    else codes "UNKNOWN"

-- The part of a description that depends on the type of the command.
unfoldable pub describe_union : SaceCommand → Str
unfolding map_normal_cmd_type_str map_normal_cmd_flag_str map_service_cmd_type_str
    map_service_flag_str map_event_type_str map_event_flag_str
describe_union c =
    if nat_eq c.type type_normal
    then codes " normalCmdType="
      ++ (map_normal_cmd_type_str c.cmd_type
          ++ (codes " flags=" ++ map_normal_cmd_flag_str c.cmd_flags))
    else if nat_eq c.type type_service
    then codes " serviceCmdType="
      ++ (map_service_cmd_type_str c.cmd_type
          ++ (codes " flags=" ++ map_service_flag_str c.cmd_flags))
    else if nat_eq c.type type_event
    then codes " eventType="
      ++ (map_event_type_str c.cmd_type ++ (codes " eventFlags=" ++ map_event_flag_str c.cmd_flags))
    else []

-- `SaceCommand::to_string`.
unfoldable pub describe_command : SaceCommand → Str
unfolding map_cmd_type_str describe_union to_string
describe_command c =
    codes "SaceCommand={type="
    ++ (map_cmd_type_str c.type
        ++ (codes " sequecne="
            ++ (to_string c.sequence
                ++ (codes " name="
                    ++ (c.name
                        ++ (codes " command="
                            ++ (c.command ++ (describe_union c ++ codes "}"))))))))

unfoldable pub map_result_type_str : SaceResultType → Str
map_result_type_str SaceResultType.fd = codes "SACE_RESULT_TYPE_FD"
map_result_type_str SaceResultType.nothing = codes "SACE_RESULT_TYPE_NONE"
map_result_type_str SaceResultType.label = codes "SACE_RESULT_TYPE_LABEL"
map_result_type_str SaceResultType.extra = codes "SACE_RESULT_TYPE_EXTRA"
map_result_type_str SaceResultType.start = codes "SACE_RESULT_TYPE_START"
map_result_type_str SaceResultType.close = codes "SACE_RESULT_TYPE_CLOSE"

-- EXISTS has no case of its own.
unfoldable pub map_result_status_str : SaceResultStatus → Str
map_result_status_str SaceResultStatus.ok = codes "SACE_RESULT_STATUS_OK"
map_result_status_str SaceResultStatus.fail = codes "SACE_RESULT_STATUS_FAIL"
map_result_status_str SaceResultStatus.secure = codes "SACE_RESULT_STATUS_SECURE"
map_result_status_str SaceResultStatus.timeout = codes "SACE_RESULT_STATUS_TIMEOUT"
map_result_status_str SaceResultStatus.exists = codes "UNKNOWN"

-- `SaceResult::to_string`; `unset` is what a `resultFd` holds that nothing has set.
unfoldable pub describe_result : ℕ → SaceResult → Str
unfolding map_result_type_str map_result_status_str int_to_string to_string
describe_result unset r =
    codes "SaceResult={sequence="
    ++ (to_string r.sequence
        ++ (codes " name="
            ++ (r.name
                ++ (codes " resultType="
                    ++ (map_result_type_str r.result_type
                        ++ (codes " resultStatus="
                            ++ (map_result_status_str r.result_status
                                ++ (codes " resultFd="
                                    ++ (int_to_string (or_else unset r.result_fd)
                                        ++ codes "}")))))))))

unfoldable pub map_status_str : SaceResponseStatus → Str
map_status_str SaceResponseStatus.exit = codes "SACE_RESPONSE_STATUS_EXIT"
map_status_str SaceResponseStatus.signal = codes "SACE_RESPONSE_STATUS_SIGNAL"
map_status_str SaceResponseStatus.user = codes "SACE_RESPONSE_STATUS_USER"
map_status_str SaceResponseStatus.unknown = codes "SACE_RESPONSE_STATUS_UNKNOWN"

unfoldable pub map_type_str : SaceResponseType → Str
map_type_str SaceResponseType.normal = codes "SACE_RESPONSE_TYPE_NORMAL"
map_type_str SaceResponseType.service = codes "SACE_RESPONSE_TYPE_SERVICE"

-- `SaceStatusResponse::to_string`.
unfoldable pub describe_response : SaceStatusResponse → Str
unfolding map_status_str map_type_str to_string
describe_response r =
    codes "SaceStatusResponse={sequence="
    ++ (to_string r.label
        ++ (codes " name="
            ++ (r.name
                ++ (codes " type="
                    ++ (map_type_str r.type
                        ++ (codes " status=" ++ (map_status_str r.status ++ codes "}")))))))
