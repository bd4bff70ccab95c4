-- ===== src/Service/Handle.antt =====
-- `excuteNormal` and `handleServiceInfo` of SaceServiceExcutor.
use sa_excutor.Common.{
  ℕ, ◌||◌, not, [], ◌∷◌, ◌++◌, Option, none, some, nat_eq, ℕ_eq, Str_eq, str_eq, length, ltb,
  if◌then◌else◌, Run, done, undefined, ◌>>=◌,
}
use sa_excutor.Common.Map.{find, insert}
use sa_excutor.Common.Bytes.{le_bytes, take}
use sa_excutor.Params.Decode.{CommandParams, parse_command_params}
use sa_excutor.Process.Child.{handle_child_params, set_pdeathsig, set_name, execl}
use sa_excutor.Types.{
  sequence_to_label, SaceWriter, SaceCommand, SaceResult, new_result, SaceReaderMessage,
  service_cmd_start, service_cmd_stop, service_cmd_pause, service_cmd_restart, service_cmd_info,
}
use sa_excutor.Types.Command.{SaceResultStatus, SaceResultType}
use sa_excutor.Service.{
  ServiceInfo, State, Env, Effect, sent, kill, forked, emit, put, add_writer, Is, WaitAnswer,
  sigterm, sigstop, sigcont,
}
use sa_excutor.Service.Info.{
  ServiceImage, image, state_code, get_by_name, cmd_buffer_len, extra_bufer_len, paused, running,
  finishing_user,
}
use sa_excutor.Service.Monitor.{monitor_service_status}

-- The result that `excuteNormal` begins with.
abbrev pub first_result : SaceCommand → SaceResult
first_result cmd = record new_result {
  sequence = cmd.sequence;
  name = cmd.name;
  result_status = SaceResultStatus.fail;
  result_type = SaceResultType.nothing;
}

abbrev pub with_status : SaceResultStatus → SaceCommand → SaceResult
with_status status cmd = record (first_result cmd) { result_status = status }

abbrev pub new_label : Env → SaceCommand → ℕ
new_label env cmd = sequence_to_label cmd.sequence env.addr

abbrev pub new_info : Env → SaceCommand → SaceWriter → ℕ → ServiceInfo
new_info env cmd writer pid = record {
  name = cmd.name;
  pid = pid;
  start_time = env.start_time;
  state = running;
  cmd_line = cmd.command;
  writer = writer ∷ [];
  label = new_label env cmd;
  flags = cmd.cmd_flags;
}

-- The child's parameters and program.
abbrev pub child_params : Env → SaceCommand → Option CommandParams
child_params env cmd = elim cmd.command_params [
  | none ↦ none
  | some p ↦ some (parse_command_params env.platform env.gid env.limit p)
]

abbrev pub child : Env → SaceCommand → Effect
child env cmd = forked (
    handle_child_params (child_params env cmd)
    ++ (set_pdeathsig ∷ set_name cmd.name ∷ execl cmd.command ∷ []))

abbrev pub started : Env → SaceCommand → SaceWriter → ℕ → State → State
started env cmd writer pid s = record {
  running = s.running ++ env.addr ∷ [];
  seq = insert (new_label env cmd) env.addr s.seq;
  names = insert cmd.name env.addr s.names;
  heap = insert env.addr (new_info env cmd writer pid) s.heap;
  effects = child env cmd ∷ s.effects;
}

abbrev pub start_result : Env → SaceCommand → SaceResult
start_result env cmd = record (with_status SaceResultStatus.ok cmd) {
  label = new_label env cmd;
  result_extra = le_bytes 8 (new_label env cmd);
}

-- Each branch gives the state and the result that is sent. The command is copied into a buffer of
-- CMD_BUFFER_LEN bytes with no check of its length: more bytes overflow it.
unfoldable pub start_service : Env → SaceCommand → SaceWriter → State → Run (State × SaceResult)
start_service env cmd writer s = elim (find cmd.name s.names) [
  | some addr ↦ done (s, with_status SaceResultStatus.exists cmd)
  | none ↦ if ltb cmd_buffer_len (length cmd.command) then undefined else elim env.fork [
    | none ↦ done (s, first_result cmd)
    | some pid ↦ done (started env cmd writer pid s, start_result env cmd)
  ]
]

-- A branch that finds its service by the label, and reads it.
abbrev pub with_service :
    (ℕ → ServiceInfo → State × SaceResult) → SaceCommand → State → Run (State × SaceResult)
with_service body cmd s = elim (find cmd.label s.seq) [
  | none ↦ done (s, first_result cmd)
  | some addr ↦ elim (find addr s.heap) [ none ↦ undefined | some info ↦ done (body addr info) ]
]

unfoldable pub stop_info : SaceCommand → State → ℕ → ServiceInfo → State × SaceResult
stop_info cmd s addr info =
    if not (Is info.state running || Is info.state paused)
    then (s, with_status SaceResultStatus.ok cmd)
    else (
      emit (kill info.pid sigterm) (put addr (record info { state = finishing_user }) s),
      with_status SaceResultStatus.ok cmd,
    )

unfoldable pub pause_info : SaceCommand → State → ℕ → ServiceInfo → State × SaceResult
pause_info cmd s addr info =
    if Is info.state running
    then (
      emit (kill info.pid sigstop) (put addr (record info { state = paused }) s),
      with_status SaceResultStatus.ok cmd,
    )
    else (s, first_result cmd)

-- A restart also pushes the pointer on the vector, where it is already.
unfoldable pub restart_info : SaceCommand → State → ℕ → ServiceInfo → State × SaceResult
restart_info cmd s addr info =
    if Is info.state paused
    then (
      (let s' = emit (kill info.pid sigcont) (put addr (record info { state = running }) s) in
          record s' { running = s'.running ++ addr ∷ [] }),
      with_status SaceResultStatus.ok cmd,
    )
    else (s, first_result cmd)

abbrev pub image_of : ServiceInfo → ServiceImage
image_of info = record {
  name = info.name;
  cmd = info.cmd_line;
  state = state_code info.state;
  label = info.label;
}

abbrev pub info_result : SaceCommand → ServiceInfo → SaceResult
info_result cmd info = record (with_status SaceResultStatus.ok cmd) {
  result_type = SaceResultType.extra;
  result_extra = take extra_bufer_len (image (image_of info));
}

unfoldable pub handle_service_info : SaceCommand → SaceWriter → State → Run (State × SaceResult)
unfolding image take add_writer
handle_service_info cmd writer s =
    if str_eq cmd.command get_by_name
    then elim (find cmd.name s.names) [
      | none ↦ done (s, first_result cmd)
      | some addr ↦ elim (find addr s.heap) [
        | none ↦ undefined
        | some info ↦
            if not (nat_eq info.flags cmd.cmd_flags)
            then done (s, first_result cmd)
            else done (
              put addr (record info { writer = add_writer writer info.writer }) s,
              info_result cmd info,
            )
      ]
    ]
    else done (s, first_result cmd)

unfoldable pub dispatch : Env → SaceCommand → SaceWriter → State → Run (State × SaceResult)
unfolding start_service stop_info pause_info restart_info handle_service_info
dispatch env cmd writer s =
    if nat_eq cmd.cmd_type service_cmd_start
    then start_service env cmd writer s
    else if nat_eq cmd.cmd_type service_cmd_stop
    then with_service (stop_info cmd s) cmd s
    else if nat_eq cmd.cmd_type service_cmd_pause
    then with_service (pause_info cmd s) cmd s
    else if nat_eq cmd.cmd_type service_cmd_restart
    then with_service (restart_info cmd s) cmd s
    else if nat_eq cmd.cmd_type service_cmd_info
    then handle_service_info cmd writer s
    else done (s, first_result cmd)

unfoldable pub excute_normal : Env → (ℕ → WaitAnswer) → SaceReaderMessage → State → Run State
unfolding dispatch monitor_service_status
excute_normal env waits msg s = elim msg.writer [
  | none ↦ undefined
  | some writer ↦ dispatch env msg.cmd writer s >>= λ r.
      monitor_service_status waits (emit (sent writer r.1) r.0)
]
