-- ===== src/Normal.antt =====
-- SaceNormalExcutor of saced/SaceExcutor.cpp: commands whose output or input a client holds.
-- A CommandInfo never changes once it is in the tables and is freed only by the destructor, so a
-- pointer to it is the record itself with its address.
pub mod Labels
pub mod Invariant
pub mod Start
pub mod Keeps
pub mod Destroy
pub mod Total
pub mod Uninit
use sa_excutor.Common.{
  ℕ, Bool, true, false, Str, List, [], ◌∷◌, ◌++◌, Option, none, some, nat_eq, ℕ_eq, if◌then◌else◌,
  Run, done, hangs, undefined, ◌>>=◌,
}
use sa_excutor.Common.Map.{Map, find, insert, erase, update}
use sa_excutor.Common.Bytes.{replicate}
use sa_excutor.Params.Decode.{Platform, Rlimit, CommandParams, parse_command_params}
use sa_excutor.Types.{
  minus_one, is_negative, sequence_to_label, SaceClientIdentifier, Client_eq, SaceWriter,
  SaceCommand, SaceResult, new_result, SaceReaderMessage, normal_cmd_start, normal_cmd_close,
  normal_cmd_destroy, cmd_flag_out,
}
use sa_excutor.Types.Command.{SaceResultStatus, SaceResultType, SaceStatusResponse}
use sa_excutor.Process.{PidEntry, PopenEnv, Opened, Waited, sace_popen, Closed, sace_pclose}
use sa_excutor.Process.Child.{ChildCall, child_program}

pub record CommandInfo : Type 0 where
  pub addr : ℕ
  pub fd : ℕ
  pub cmd_line : Str
  pub label : ℕ
  pub writer : SaceWriter
  pub pid : ℕ

-- What a handler does to the outside: a result or a response sent, a SIGKILL, a SIGINT, a child
-- with its program.
pub data Effect : Type 0 where
  sent : SaceWriter → SaceResult → Effect
  responded : SaceWriter → SaceStatusResponse → Effect
  killed interrupted : ℕ → Effect
  forked : List ChildCall → Effect

-- `mRunningCmd`, `mClientCmd`, `mSeqCmd`, the global `pidlist`, and the effects, newest first.
pub record State : Type 0 where
  pub running : List CommandInfo
  pub client_cmd : Map SaceClientIdentifier (List ℕ)
  pub seq_cmd : Map ℕ CommandInfo
  pub pidlist : List PidEntry
  pub effects : List Effect

-- The answers of the machine during a call: the address of `new CommandInfo`, the pipe and the
-- fork, the locals that `parseCommandParams` leaves uninitialised, `waitpid` by descriptor and
-- round, and the fuel for each wait.
pub record Env : Type 0 where
  pub addr : ℕ
  pub popen : PopenEnv
  pub platform : Platform
  pub gid : ℕ
  pub limit : Rlimit
  pub waits : ℕ → ℕ → Waited
  pub fuel : ℕ

-- The first item that passes the test is dropped (`remove_vecotr_item`).
unfoldable pub remove_vecotr_item {ℓ} : {A : Type ℓ} → (A → Bool) → List A → List A
remove_vecotr_item is_item [] = []
remove_vecotr_item is_item (x ∷ xs) = if is_item x then xs else x ∷ remove_vecotr_item is_item xs

abbrev pub same_info : CommandInfo → CommandInfo → Bool
same_info i j = nat_eq i.addr j.addr

abbrev pub write_result : SaceWriter → SaceResult → State → State
write_result w r s = record s { effects = sent w r ∷ s.effects }

abbrev pub base_result : SaceCommand → SaceResult
base_result cmd = record new_result { sequence = cmd.sequence; name = cmd.name }

abbrev or_zero : Option ℕ → ℕ
or_zero none = 0
or_zero (some n) = n

-- `mClientCmd` gets the label at the end of the client's list.
unfoldable pub add_label :
    SaceClientIdentifier → ℕ → Map SaceClientIdentifier (List ℕ) → Map SaceClientIdentifier (List ℕ)
add_label client label m = elim (find client m) [
  | none ↦ insert client (label ∷ []) m
  | some labels ↦ update client (λ ls. ls ++ label ∷ []) m
]

store_left :
    SaceClientIdentifier
    → List ℕ
    → Map SaceClientIdentifier (List ℕ)
    → Map SaceClientIdentifier (List ℕ)
store_left client [] m = erase client m
store_left client (l ∷ ls) m = update client (λ _. l ∷ ls) m

-- The label leaves the client's list, and an empty list the map.
unfoldable pub drop_label :
    SaceClientIdentifier → ℕ → Map SaceClientIdentifier (List ℕ) → Map SaceClientIdentifier (List ℕ)
unfolding remove_vecotr_item store_left
drop_label client label m = elim (find client m) [
  | none ↦ m
  | some labels ↦ store_left client (remove_vecotr_item (nat_eq label) labels) m
]

abbrev pub write_flag : SaceCommand → Bool
write_flag cmd = nat_eq cmd.cmd_flags cmd_flag_out

-- The parameters that the child applies.
abbrev pub child_params : Env → SaceCommand → Option CommandParams
child_params env cmd = elim cmd.command_params [
  | none ↦ none
  | some p ↦ some (parse_command_params env.platform env.gid env.limit p)
]

-- The child's program, if `sace_popen` got as far as a child.
abbrev pub children : Env → SaceCommand → List PidEntry → List Effect
children env cmd pidlist = elim env.popen.pipe [
  | none ↦ []
  | some ends ↦ elim (sace_popen (write_flag cmd) env.popen pidlist).out_pid [
    | none ↦ []
    | some pid ↦
        forked (child_program (write_flag cmd) ends pidlist (child_params env cmd) cmd.command) ∷ []
  ]
]

abbrev pub new_label : Env → SaceReaderMessage → ℕ
new_label env msg = sequence_to_label msg.cmd.sequence env.addr

abbrev pub new_info : Env → SaceReaderMessage → SaceWriter → Opened → CommandInfo
new_info env msg writer o = record {
  addr = env.addr;
  fd = o.ret;
  cmd_line = msg.cmd.command;
  label = new_label env msg;
  writer = writer;
  pid = or_zero o.out_pid;
}

-- `startNormalCmd` after a `sace_popen` that succeeded.
unfoldable pub started : Env → SaceReaderMessage → SaceWriter → Opened → State → State
unfolding add_label
started env msg writer o s =
    let label = new_label env msg in
    let info = new_info env msg writer o in
    let result : SaceResult = record (base_result msg.cmd) {
      result_type = SaceResultType.fd;
      result_status = SaceResultStatus.ok;
      label = label;
      result_fd = some o.ret;
    } in
    write_result writer result (record {
      running = s.running ++ info ∷ [];
      client_cmd = add_label msg.client label s.client_cmd;
      seq_cmd = insert label info s.seq_cmd;
      pidlist = o.pidlist;
      effects = children env msg.cmd s.pidlist ++ s.effects;
    })

abbrev pub start_failure : SaceCommand → SaceResult
start_failure cmd = record (base_result cmd) {
  result_status = SaceResultStatus.fail;
  result_type = SaceResultType.start;
}

abbrev pub popen_of : Env → SaceReaderMessage → State → Opened
popen_of env msg s = sace_popen (write_flag msg.cmd) env.popen s.pidlist

unfoldable pub start_normal_cmd : Env → SaceReaderMessage → State → Run State
unfolding started
start_normal_cmd env msg s = elim msg.writer [
  | none ↦ undefined
  | some writer ↦
      let o = popen_of env msg s in
      if is_negative o.ret
      then done (write_result writer (start_failure msg.cmd) (record s { pidlist = o.pidlist }))
      else done (started env msg writer o s)
]

-- What closing the command at `label` leaves: the vector, the map and the process list without it.
abbrev pub info_closed : ℕ → CommandInfo → Closed → State → State
info_closed label info c s = record s {
  running = remove_vecotr_item (same_info info) s.running;
  seq_cmd = erase label s.seq_cmd;
  pidlist = c.pidlist;
  effects = replicate c.kills (killed info.pid) ++ s.effects;
}

unfoldable pub close_info : Env → ℕ → CommandInfo → State → Run State
unfolding remove_vecotr_item
close_info env label info s = elim (sace_pclose (env.waits info.fd) env.fuel info.fd s.pidlist) [
  | none ↦ hangs
  | some c ↦ done (info_closed label info c s)
]

abbrev pub close_result : SaceCommand → SaceResultStatus → SaceResult
close_result cmd status = record (base_result cmd) {
  result_fd = some minus_one;
  result_type = SaceResultType.close;
  result_status = status;
}

abbrev pub command_closed : SaceReaderMessage → SaceWriter → CommandInfo → State → State
command_closed msg writer info s =
    write_result writer (close_result msg.cmd SaceResultStatus.ok)
      (record s { client_cmd = drop_label msg.client info.label s.client_cmd })

unfoldable pub close_normal_cmd : Env → SaceReaderMessage → State → Run State
unfolding close_info drop_label
close_normal_cmd env msg s = elim msg.writer [
  | none ↦ undefined
  | some writer ↦ elim (find msg.cmd.label s.seq_cmd) [
    | none ↦ done (write_result writer (close_result msg.cmd SaceResultStatus.fail) s)
    | some info ↦ do
      s' ← close_info env msg.cmd.label info s
      done (command_closed msg writer info s')
  ]
]

-- The loop of `destroyNormalCmd` over its copy of the client's labels.
unfoldable pub destroy_labels : Env → List ℕ → State → Run State
unfolding close_info
destroy_labels env [] s = done s
destroy_labels env (label ∷ labels) s = elim (find label s.seq_cmd) [
  | none ↦ destroy_labels env labels s
  | some info ↦ close_info env label info s >>= λ s'. destroy_labels env labels s'
]

unfoldable pub destroy_normal_cmd : Env → SaceReaderMessage → State → Run State
unfolding destroy_labels
destroy_normal_cmd env msg s = elim (find msg.client s.client_cmd) [
  | none ↦ done s
  | some labels ↦ destroy_labels env labels s >>= λ s'.
      done (record s' { client_cmd = erase msg.client s'.client_cmd })
]

-- `excuteNormal`.
unfoldable pub excute_normal : Env → SaceReaderMessage → State → Run State
unfolding start_normal_cmd close_normal_cmd destroy_normal_cmd
excute_normal env msg s =
    if nat_eq msg.cmd.cmd_type normal_cmd_start
    then start_normal_cmd env msg s
    else if nat_eq msg.cmd.cmd_type normal_cmd_close
    then close_normal_cmd env msg s
    else if nat_eq msg.cmd.cmd_type normal_cmd_destroy
    then destroy_normal_cmd env msg s
    else done s
