-- ===== src/Manager.antt =====
-- SaceManager (libsace/SaceManager.cpp): the services and commands that a client holds. An object is
-- shared by the client and the manager's map, so objects lie in a store and the maps hold their
-- places. `SaceSender::excuteCommand` is an argument: the result that comes back for a command.
pub mod Held
pub mod Services
pub mod Response
pub mod Valid
pub mod Reach
pub mod Ended
pub mod Errors
use sa_excutor.Common.{
  ℕ, ◌+◌, Bool, true, false, Str, codes, List, [], ◌∷◌, Option, none, some, nat_eq, length, ℕ_eq,
  if◌then◌else◌, Run, done, undefined, ◌>>=◌,
}
use sa_excutor.Common.Bytes.{replicate}
use sa_excutor.Common.Map.{Map, insert, erase, or_else}
use sa_excutor.Params.{SaceCommandParams, set_uid, set_gid, set_seclabel}
use sa_excutor.Types.{
  sequence_to_label, SaceCommand, new_command, SaceResult, SaceStatusResponse, type_normal,
  type_service, type_event, normal_cmd_start, service_cmd_start, service_cmd_info,
  service_flag_normal, event_type_add, event_type_del, event_type_info, event_flag_none,
  cmd_flag_in, cmd_flag_out, minus_one,
}
use sa_excutor.Types.Command.{SaceResultStatus, SaceResultType, SaceResponseType}
use sa_excutor.Service.Info.{of_image, get_by_name, ServiceImage}
use sa_excutor.Client.{
  ErrorCode, result_to_error, response_to_error, SaceCommandObj, SaceServiceObj, is_ok,
}

-- AID_ROOT and AID_SYSTEM.
abbrev aid_root : ℕ
aid_root = 0

abbrev aid_system : ℕ
aid_system = 1000

-- What reaches the client's callback: an object, its label and its texts.
pub data Notice : Type 0 where
  service : ℕ → ℕ → Str → Str → Notice
  command : ℕ → ℕ → Str → Notice

pub record Manager : Type 0 where
  pub services : Map ℕ ℕ
  pub commands : Map ℕ ℕ
  pub service_objs : Map ℕ SaceServiceObj
  pub command_objs : Map ℕ SaceCommandObj
  pub next : ℕ
  pub cmd_param : SaceCommandParams
  pub service_param : SaceCommandParams
  pub event_param : SaceCommandParams
  pub has_callback : Bool
  pub sent : List SaceCommand
  pub notices : List Notice

-- What a call takes from outside: the answers of the sender, the sequence number of its i-th
-- command, the name "pid:tid", and what an object's memory holds where nothing sets it.
pub record Env : Type 0 where
  pub answer : SaceCommand → SaceResult
  pub sequence : ℕ → ℕ
  pub thread : Str
  pub unset : ℕ

abbrev plain_params : ℕ → SaceCommandParams
plain_params cap_size = record {
  uid = [];
  gid = [];
  supp_gids = [];
  rlimits = [];
  seclabel = [];
  capabilities = replicate cap_size false;
  event = none;
}

abbrev event_params : ℕ → SaceCommandParams
event_params cap_size = record (plain_params cap_size) {
  event = some (record { property_key = []; property_value = []; boot = true });
}

abbrev system_params : ℕ → SaceCommandParams
system_params cap_size =
    set_seclabel (codes "u:r:system_server:s0")
      (set_gid aid_system (set_uid aid_system (event_params cap_size)))

-- The constructor; `cap_size` is the number of capabilities.
unfoldable pub new_manager : ℕ → Manager
unfolding set_uid set_gid set_seclabel replicate
new_manager cap_size = record {
  services = [];
  commands = [];
  service_objs = [];
  command_objs = [];
  next = 0;
  cmd_param =
      set_seclabel (codes "u:r:su:s0")
        (set_gid aid_root (set_uid aid_root (plain_params cap_size)));
  service_param = system_params cap_size;
  event_param = system_params cap_size;
  has_callback = false;
  sent = [];
  notices = [];
}

-- `mCmdCallback`, which an object calls when it was closed or stopped.
unfoldable pub cmd_callback : ℕ → ℕ → Manager → Manager
cmd_callback type label m =
    if nat_eq type type_service
    then record m { services = erase label m.services }
    else if nat_eq type type_normal
    then record m { commands = erase label m.commands }
    else m

-- `mSender->excuteCommand`.
unfoldable pub send : Env → SaceCommand → Manager → Manager × SaceResult
send env cmd m = (record m { sent = cmd ∷ m.sent }, env.answer cmd)

abbrev pub base_command : Env → ℕ → SaceCommand
base_command env i = new_command (env.sequence i) env.thread

-- The two constructors of SaceServiceObj.
abbrev pub live_service : Env → ℕ → Str → Str → SaceServiceObj
live_service env label name cmd = record {
  label = label;
  name = name;
  command = cmd;
  error = ErrorCode.err_ok;
  has_callback = true;
  sequence = env.sequence 3;
  thread = env.thread;
  effects = [];
}

abbrev pub failed_service : Env → ErrorCode → Str → Str → ℕ → SaceServiceObj
failed_service env code name cmd label = record (live_service env label name cmd) {
  error = code;
  has_callback = false;
}

-- The two constructors of SaceCommandObj: that of an error leaves `fd` and `in` unset, and the
-- sender and the callback null.
abbrev pub live_command : Env → ℕ → Str → ℕ → Bool → SaceCommandObj
live_command env label cmd fd input = record {
  cmd = cmd;
  label = label;
  fd = fd;
  input = input;
  error = ErrorCode.err_ok;
  has_callback = true;
  sequence = env.sequence 3;
  thread = env.thread;
  effects = [];
}

abbrev pub failed_command : Env → ErrorCode → Str → ℕ → SaceCommandObj
failed_command env code cmd label = record (live_command env label cmd env.unset false) {
  error = code;
  has_callback = false;
}

abbrev pub keep_service : SaceServiceObj → Manager → Manager × ℕ
keep_service o m =
    (record m { service_objs = (m.next, o) ∷ m.service_objs; next = m.next + 1 }, m.next)

abbrev pub keep_command : SaceCommandObj → Manager → Manager × ℕ
keep_command o m =
    (record m { command_objs = (m.next, o) ∷ m.command_objs; next = m.next + 1 }, m.next)

-- `if (!param) … = param; else … = …`.
unfoldable pub chosen : Option SaceCommandParams → SaceCommandParams → Option SaceCommandParams
chosen none default = none
chosen (some _) default = some default

unfoldable pub start_command : Env → Str → Option SaceCommandParams → Bool → Manager → SaceCommand
unfolding chosen
start_command env cmd param input m = record (base_command env 0) {
  type = type_normal;
  cmd_type = normal_cmd_start;
  command = cmd;
  cmd_flags = if input then cmd_flag_in else cmd_flag_out;
  command_params = chosen param m.cmd_param;
}

-- `runCommand` after the result; the descriptor of a result of type FD is set by the sender.
unfoldable pub ran_command :
    Env → Str → Bool → ℕ → Manager → SaceResult → SaceResultStatus → SaceResultType → Manager × ℕ
ran_command env cmd input sequence m r SaceResultStatus.ok SaceResultType.fd =
    let (m', id) =
      keep_command (live_command env r.label cmd (or_else minus_one r.result_fd) input) m in
    (record m' { commands = insert r.label id m'.commands }, id)
ran_command env cmd input sequence m r SaceResultStatus.ok _ =
    keep_command (failed_command env ErrorCode.err_unknown cmd (sequence_to_label sequence 0)) m
ran_command env cmd input sequence m r status _ =
    keep_command (failed_command env (result_to_error status) cmd (sequence_to_label sequence 0)) m

unfoldable pub run_command : Env → Str → Option SaceCommandParams → Bool → Manager → Manager × ℕ
unfolding start_command send ran_command
run_command env cmd param input m =
    let command = start_command env cmd param input m in
    let (m', r) = send env command m in
    ran_command env cmd input command.sequence m' r r.result_status r.result_type
