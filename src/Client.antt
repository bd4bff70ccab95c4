-- ===== src/Client.antt =====
-- The objects that a client holds (libsace/SaceObj.cpp): commands and services, their error codes,
-- and the requests that they send. `SaceSender::excuteCommand` is an argument: the result that comes
-- back for a command.
pub mod Requests
use sa_excutor.Common.{ℕ, Bool, true, false, not, ◌||◌, Str, List, [], ◌∷◌, nat_eq, if◌then◌else◌}
use sa_excutor.Types.{
  minus_one, is_negative, label_to_sequence, SaceCommand, new_command, SaceResult, type_normal,
  type_service, normal_cmd_close, service_cmd_stop, service_cmd_pause, service_cmd_restart,
  service_cmd_info,
}
use sa_excutor.Types.Command.{SaceResultStatus, SaceResponseStatus}
use sa_excutor.Service.Info.{of_image, get_by_label, ServiceImage}

pub data ErrorCode : Type 0 where
  err_ok err_timeout err_exit err_exit_user err_not_exists err_unknown : ErrorCode

unfoldable pub response_to_error : SaceResponseStatus → ErrorCode
response_to_error SaceResponseStatus.exit = err_exit
response_to_error SaceResponseStatus.signal = err_exit
response_to_error SaceResponseStatus.user = err_exit_user
response_to_error SaceResponseStatus.unknown = err_unknown

-- For FAIL and SECURE the first of two return statements counts.
unfoldable pub result_to_error : SaceResultStatus → ErrorCode
result_to_error SaceResultStatus.ok = err_ok
result_to_error SaceResultStatus.timeout = err_timeout
result_to_error SaceResultStatus.fail = err_exit_user
result_to_error SaceResultStatus.secure = err_exit_user
result_to_error SaceResultStatus.exists = err_unknown

-- What a call gives: a value, or an exception (libsace/include/sace/SaceError.h).
pub data Outcome (A : Type 0) : Type 0 where
  returned : A → Outcome A
  unsupported remote invalid : Outcome A

-- The calls that leave the object, oldest last.
pub data Effect : Type 0 where
  fsync close read write : ℕ → Effect
  excuted : SaceCommand → Effect
  callback : ℕ → ℕ → Effect

-- `SaceCommandObj`; `sequence` and `thread` are what the constructor of a SaceCommand takes from
-- the process.
pub record SaceCommandObj : Type 0 where
  pub cmd : Str
  pub label : ℕ
  pub fd : ℕ
  pub input : Bool
  pub error : ErrorCode
  pub has_callback : Bool
  pub sequence : ℕ
  pub thread : Str
  pub effects : List Effect

abbrev with_error {ℓ} : {A : Type ℓ} → ErrorCode → A → A → A → A → A
with_error err_unknown unknown exit user fine = unknown
with_error err_exit unknown exit user fine = exit
with_error err_exit_user unknown exit user fine = user
with_error _ unknown exit user fine = fine

-- The guards of `read`, and the descriptor that is read.
unfoldable pub read_guard : SaceCommandObj → Outcome ℕ
read_guard o =
    if not o.input then unsupported else with_error o.error remote remote invalid (returned o.fd)

unfoldable pub write_guard : SaceCommandObj → Outcome ℕ
write_guard o =
    if o.input then unsupported else with_error o.error remote remote invalid (returned o.fd)

abbrev pub close_command : SaceCommandObj → SaceCommand
close_command o = record (new_command o.sequence o.thread) {
  label = o.label;
  sequence = label_to_sequence o.label;
  type = type_normal;
  cmd_type = normal_cmd_close;
  command = o.cmd;
}

abbrev when : Bool → Effect → List Effect → List Effect
when true e es = e ∷ es
when false e es = es

unfoldable pub close_open : (SaceCommand → SaceResult) → SaceCommandObj → SaceCommandObj
unfolding result_to_error
close_open answer o = record o {
  fd = minus_one;
  error = result_to_error (answer (close_command o)).result_status;
  effects =
      when o.has_callback (callback type_normal o.label)
        (excuted (close_command o) ∷ close o.fd ∷ fsync o.fd ∷ o.effects);
}

abbrev pub is_closed : ErrorCode → Bool
is_closed err_exit = true
is_closed err_exit_user = true
is_closed err_unknown = true
is_closed _ = false

unfoldable pub close_object : (SaceCommand → SaceResult) → SaceCommandObj → SaceCommandObj
unfolding close_open
close_object answer o =
    if is_closed o.error then o else if is_negative o.fd then o else close_open answer o

-- `SaceServiceObj`.
pub record SaceServiceObj : Type 0 where
  pub label : ℕ
  pub name : Str
  pub command : Str
  pub error : ErrorCode
  pub has_callback : Bool
  pub sequence : ℕ
  pub thread : Str
  pub effects : List Effect

abbrev pub service_command : ℕ → SaceServiceObj → SaceCommand
service_command cmd_type o = record (new_command o.sequence o.thread) {
  label = o.label;
  sequence = label_to_sequence o.label;
  type = type_service;
  cmd_type = cmd_type;
}

abbrev pub is_ok : SaceResultStatus → Bool
is_ok SaceResultStatus.ok = true
is_ok _ = false

-- The request that `stop`, `pause` and `restart` have in common, and what it returns.
unfoldable pub request : (SaceCommand → SaceResult) → ℕ → SaceServiceObj → SaceServiceObj × Bool
unfolding result_to_error
request answer cmd_type o =
    let cmd = service_command cmd_type o in
    let status = (answer cmd).result_status in
    (record o { error = result_to_error status; effects = excuted cmd ∷ o.effects }, is_ok status)

-- Their guards: an error throws, and a label of 0 is refused.
unfoldable pub guarded_by :
    (SaceServiceObj → SaceServiceObj × Bool)
    → SaceServiceObj
    → ErrorCode
    → Outcome (SaceServiceObj × Bool)
guarded_by body o err_unknown = remote
guarded_by body o err_not_exists = remote
guarded_by body o err_exit = remote
guarded_by body o err_exit_user = invalid
guarded_by body o err_ok = returned (if nat_eq o.label 0 then (o, false) else body o)
guarded_by body o err_timeout = returned (if nat_eq o.label 0 then (o, false) else body o)

abbrev pub guarded :
    (SaceServiceObj → SaceServiceObj × Bool) → SaceServiceObj → Outcome (SaceServiceObj × Bool)
unfolding guarded_by
guarded body o = guarded_by body o o.error

-- A stop also runs the callback.
unfoldable pub stop_request : (SaceCommand → SaceResult) → SaceServiceObj → SaceServiceObj × Bool
unfolding request
stop_request answer o =
    let (o', ok) = request answer service_cmd_stop o in
    (record o' { effects = when o.has_callback (callback type_service o.label) o'.effects }, ok)

unfoldable pub stop : (SaceCommand → SaceResult) → SaceServiceObj → Outcome (SaceServiceObj × Bool)
unfolding guarded stop_request
stop answer = guarded (stop_request answer)

unfoldable pub pause : (SaceCommand → SaceResult) → SaceServiceObj → Outcome (SaceServiceObj × Bool)
unfolding guarded request
pause answer = guarded (request answer service_cmd_pause)

unfoldable pub restart :
    (SaceCommand → SaceResult) → SaceServiceObj → Outcome (SaceServiceObj × Bool)
unfolding guarded request
restart answer = guarded (request answer service_cmd_restart)

abbrev pub state_command : SaceServiceObj → SaceCommand
state_command o = record (service_command service_cmd_info o) { command = get_by_label }

-- The state is given as its code; SERVICE_DIED_UNKNOWN is 5.
unfoldable pub request_state : (SaceCommand → SaceResult) → SaceServiceObj → SaceServiceObj × ℕ
unfolding result_to_error
request_state answer o =
    let result = answer (state_command o) in
    (
      record o {
        error = result_to_error result.result_status;
        effects = excuted (state_command o) ∷ o.effects;
      },
      if is_ok result.result_status then (of_image result.result_extra).state else 5,
    )

unfoldable pub get_state :
    (SaceCommand → SaceResult) → SaceServiceObj → Outcome (SaceServiceObj × ℕ)
unfolding request_state
get_state answer o =
    with_error o.error (returned (request_state answer o)) remote invalid
      (returned (request_state answer o))
