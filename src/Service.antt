-- ===== src/Service.antt =====
-- SaceServiceExcutor of saced/SaceExcutor.cpp: named services that run until they end or are stopped.
-- The three tables hold pointers: `running`, `seq` and `names` lead to addresses, and `heap` is what
-- is allocated, so that reading a freed service is undefined.
pub mod Info
pub mod Monitor
pub mod Handle
pub mod Scan
pub mod Uninit
pub mod Destroy
pub mod Restart
pub mod Query
pub mod Reports
pub mod Image
pub mod Total
pub mod Keeps
pub mod Invariant
use sa_excutor.Common.{
  ℕ, suc, ◌+◌, Bool, true, false, ◌&&◌, ◌||◌, not, Str, List, [], ◌∷◌, ◌++◌, map, Option, none,
  some, nat_eq, ℕ_eq, Str_eq, str_eq, codes, leb, ltb, length, if◌then◌else◌, Run, done, undefined,
  ◌>>=◌,
}
use sa_excutor.Common.Map.{Map, find, insert, erase, update}
use sa_excutor.Common.Bytes.{le_bytes, replicate}
use sa_excutor.Params.Decode.{Platform, Rlimit, CommandParams, parse_command_params}
use sa_excutor.Process.Child.{ChildCall, set_pdeathsig, set_name, execl, handle_child_params}
use sa_excutor.Types.{
  sequence_to_label, SaceWriter, same_writer, SaceCommand, SaceResult, new_result,
  SaceStatusResponse, new_response, SaceReaderMessage, service_cmd_start, service_cmd_stop,
  service_cmd_pause, service_cmd_restart, service_cmd_info,
}
use sa_excutor.Types.Command.{
  SaceResultStatus, SaceResultType, SaceResponseStatus, SaceResponseType,
}
use Info.{ServiceState, ServiceImage, image, cmd_buffer_len, get_by_name}

pub record ServiceInfo : Type 0 where
  pub name : Str
  pub pid : ℕ
  pub start_time : Str
  pub state : ServiceState
  pub cmd_line : Str
  pub writer : List SaceWriter
  pub label : ℕ
  pub flags : ℕ

pub data Effect : Type 0 where
  sent : SaceWriter → SaceResult → Effect
  responded : SaceWriter → SaceStatusResponse → Effect
  kill : ℕ → ℕ → Effect
  forked : List ChildCall → Effect

-- `mRunningService`, `mSeqService`, `mNameService`, the allocated services, and the effects,
-- newest first.
pub record State : Type 0 where
  pub running : List ℕ
  pub seq : Map ℕ ℕ
  pub names : Map Str ℕ
  pub heap : Map ℕ ServiceInfo
  pub effects : List Effect

-- The answers of the machine during a call: the address of `new ServiceInfo`, the fork, the time
-- of the start, the locals that `parseCommandParams` leaves uninitialised.
pub record Env : Type 0 where
  pub addr : ℕ
  pub fork : Option ℕ
  pub start_time : Str
  pub platform : Platform
  pub gid : ℕ
  pub limit : Rlimit

-- What `waitpid` with WNOHANG answers: an exit code, a signal, another status, nothing yet,
-- ECHILD, or another error.
pub data WaitAnswer : Type 0 where
  exited signaled changed : ℕ → WaitAnswer
  still no_child failed : WaitAnswer

abbrev pub sigint : ℕ
sigint = 2

abbrev pub sigkill : ℕ
sigkill = 9

abbrev pub sigterm : ℕ
sigterm = 15

abbrev pub sigcont : ℕ
sigcont = 18

abbrev pub sigstop : ℕ
sigstop = 19

abbrev pub emit : Effect → State → State
emit e s = record s { effects = e ∷ s.effects }

abbrev pub put : ℕ → ServiceInfo → State → State
put addr info s = record s { heap = update addr (λ _. info) s.heap }

-- `ServiceInfo::add_writer`.
unfoldable pub add_writer : SaceWriter → List SaceWriter → List SaceWriter
add_writer wr [] = wr ∷ []
add_writer wr (w ∷ ws) = if same_writer w (some wr) then w ∷ ws else w ∷ add_writer wr ws

-- `ServiceInfo::sendResponse`: to every writer, in order.
unfoldable pub send_response : SaceStatusResponse → List SaceWriter → List Effect → List Effect
send_response response [] effects = effects
send_response response (w ∷ ws) effects = send_response response ws (responded w response ∷ effects)

abbrev pub Is : ServiceState → ServiceState → Bool
Is a b = nat_eq (Info.state_code a) (Info.state_code b)
