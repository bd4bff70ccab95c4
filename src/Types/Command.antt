-- ===== src/Types/Command.antt =====
-- The command and result records of libsace/include/sace/SaceTypes.h.
-- An enumeration with `: int8_t` is its byte, since a command comes from the wire unchecked; the
-- three views of the union are the two bytes `cmd_type` and `cmd_flags`.
use sa_excutor.Common.{ℕ, Str, List, [], Option, none}
use sa_excutor.Params.{SaceCommandParams}

abbrev pub extra_bufer_len : ℕ
extra_bufer_len = 256

abbrev pub type_normal : ℕ
type_normal = 0

abbrev pub type_service : ℕ
type_service = 1

abbrev pub type_event : ℕ
type_event = 2

abbrev pub service_cmd_start : ℕ
service_cmd_start = 0

abbrev pub service_cmd_stop : ℕ
service_cmd_stop = 1

abbrev pub service_cmd_pause : ℕ
service_cmd_pause = 2

abbrev pub service_cmd_restart : ℕ
service_cmd_restart = 3

abbrev pub service_cmd_info : ℕ
service_cmd_info = 4

abbrev pub normal_cmd_start : ℕ
normal_cmd_start = 0

abbrev pub normal_cmd_close : ℕ
normal_cmd_close = 1

abbrev pub normal_cmd_destroy : ℕ
normal_cmd_destroy = 2

abbrev pub event_type_add : ℕ
event_type_add = 0

abbrev pub event_type_del : ℕ
event_type_del = 1

abbrev pub event_type_info : ℕ
event_type_info = 2

abbrev pub service_flag_normal : ℕ
service_flag_normal = 0

abbrev pub service_flag_event : ℕ
service_flag_event = 1

abbrev pub cmd_flag_in : ℕ
cmd_flag_in = 0

abbrev pub cmd_flag_out : ℕ
cmd_flag_out = 1

abbrev pub event_flag_none : ℕ
event_flag_none = 0

abbrev pub event_flag_restart : ℕ
event_flag_restart = 1

-- `extra` holds the `extraLen` bytes that count.
pub record SaceCommand : Type 0 where
  pub len : ℕ
  pub type : ℕ
  pub sequence : ℕ
  pub label : ℕ
  pub name : Str
  pub command : Str
  pub command_params : Option SaceCommandParams
  pub extra : List ℕ
  pub cmd_type : ℕ
  pub cmd_flags : ℕ

-- `SaceCommand ()`: the next sequence number and the name "pid:tid" come from the process.
unfoldable pub new_command : ℕ → Str → SaceCommand
new_command sequence name = record {
  len = 0;
  type = type_normal;
  sequence = sequence;
  label = 0;
  name = name;
  command = [];
  command_params = none;
  extra = [];
  cmd_type = normal_cmd_start;
  cmd_flags = cmd_flag_in;
}

pub data SaceResultStatus : Type 0 where
  ok timeout fail secure exists : SaceResultStatus

pub data SaceResultType : Type 0 where
  nothing start close fd extra label : SaceResultType

-- The constructor leaves `resultFd` unset: `none`.
pub record SaceResult : Type 0 where
  pub label : ℕ
  pub sequence : ℕ
  pub name : Str
  pub result_type : SaceResultType
  pub result_status : SaceResultStatus
  pub result_extra : List ℕ
  pub result_fd : Option ℕ

unfoldable pub new_result : SaceResult
new_result = record {
  label = 0;
  sequence = 0;
  name = [];
  result_type = nothing;
  result_status = ok;
  result_extra = [];
  result_fd = none;
}

pub data SaceResponseStatus : Type 0 where
  exit signal user unknown : SaceResponseStatus

pub data SaceResponseType : Type 0 where
  normal service : SaceResponseType

pub record SaceStatusResponse : Type 0 where
  pub label : ℕ
  pub name : Str
  pub type : SaceResponseType
  pub status : SaceResponseStatus
  pub extra : List ℕ

unfoldable pub new_response : SaceStatusResponse
new_response = record { label = 0; name = []; type = service; status = exit; extra = [] }
