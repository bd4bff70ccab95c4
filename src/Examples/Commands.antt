-- ===== src/Examples/Commands.antt =====
-- Runs of the process functions and of SaceNormalExcutor.
use sa_excutor.Common.{
  ℕ, ◌+◌, ◌≡◌, refl, true, false, codes, [], ◌∷◌, Option, none, some, arith, ltb, if◌then◌else◌,
  done, ◌>>=◌, ℕ_eq, ◌==◌,
}
use sa_excutor.Common.Map.{find}
use sa_excutor.Types.{
  SaceClientIdentifier, Client_eq, SaceReaderMessage, SaceMessageHandlerType, sequence_to_label,
}
use sa_excutor.Process.{
  PidEntry, PopenEnv, Waited, running, reaped, sace_popen, sace_pclose, find_fd, remove_fd,
}
use sa_excutor.Process.Open.{pclose-popen}
use sa_excutor.Process.Close.{pclose_ends, pclose_never, Ends}
use sa_excutor.Normal.{
  Env, State, started, popen_of, start_normal_cmd, close_normal_cmd, destroy_normal_cmd,
}
use sa_excutor.Normal.Invariant.{Inv}
use sa_excutor.Normal.Labels.{labels_of}
use sa_excutor.Normal.Keeps.{started-Inv}
use sa_excutor.Normal.Start.{IsFresh, close-start}
use sa_excutor.Normal.Destroy.{is_listed, destroy_removes}
use sa_excutor.Examples.{platform, limit, client, writer, command, message}

-- A child that ends at the third look.
abbrev looks : ℕ → Waited
looks k = if ltb k 2 then running else reaped 0

looks-Ends : Ends looks 5
looks-Ends = (2, omega arith, λ k h. ground arith, ground arith)

abbrev entry : PidEntry
entry = record { fd = 7; pid = 301 }

pclose_ends_example :
    sace_pclose looks 5 7 (entry ∷ [])
    ≡ some (record { pidlist = []; ret = 0; kills = 0; closed = true })
unfolding find_fd remove_fd
pclose_ends_example =
    pclose_ends looks 2 5 7 (entry ∷ []) entry refl refl (λ k h. ground arith) (ground arith)
      (omega arith)

pclose_never_example : sace_pclose (λ _. running) 100 7 (entry ∷ []) ≡ none
unfolding find_fd
pclose_never_example = pclose_never (λ _. running) 100 7 (entry ∷ []) entry refl refl (λ k. refl)

abbrev popen_env : PopenEnv
popen_env = record { pipe = some (7, 8); memory = true; vfork = some 301 }

pclose-popen_example :
    sace_pclose looks 5 7 (entry ∷ [])
    ≡ some (record { pidlist = []; ret = 0; kills = 0; closed = true })
unfolding sace_popen
pclose-popen_example =
    pclose-popen false popen_env [] looks 2 5 301 refl refl (λ k h. ground arith) (ground arith)
      (omega arith)

abbrev env : Env
env = record {
  addr = 4096;
  popen = popen_env;
  platform = platform;
  gid = 0;
  limit = limit;
  waits = λ _. looks;
  fuel = 5;
}

abbrev no_command : State
no_command = record { running = []; client_cmd = []; seq_cmd = []; pidlist = []; effects = [] }

no_command-Inv : Inv no_command
unfolding find
no_command-Inv = record {
  found = λ l i h. ground arith;
  kept = tt;
  distinct = tt;
  lists = λ c. refl;
}

abbrev start_message : SaceReaderMessage
start_message = message SaceMessageHandlerType.normal (command 0 0 (codes "ls"))

abbrev close_message : SaceReaderMessage
close_message = message SaceMessageHandlerType.normal (command 1 17592186044425 [])

abbrev destroy_message : SaceReaderMessage
destroy_message = message SaceMessageHandlerType.normal (command 2 0 [])

-- The daemon's standard streams, the pipe at 7 and 8, and a sibling's end at 5.
abbrev descriptors : ℕ → Option ℕ
descriptors k = if ltb k 9 then some (100 + k) else none

abbrev sibling : PidEntry
sibling = record { fd = 5; pid = 300 }

fresh : IsFresh 17592186044425 4096 client no_command
unfolding find
fresh = record { label_new = refl; addr_new = tt; unlisted = tt; listed = refl }

close-start_example :
    (s' : State) × ((start_normal_cmd env start_message no_command
        >>= close_normal_cmd env close_message)
      ≡ done s')
    × (s'.running ≡ [])
    × (s'.pidlist ≡ [])
    × ((j : ℕ) → find j s'.seq_cmd ≡ find j no_command.seq_cmd)
    × ((c : SaceClientIdentifier) → find c s'.client_cmd ≡ find c no_command.client_cmd)
unfolding sace_popen sequence_to_label
close-start_example =
    close-start env env start_message close_message writer writer no_command 2 301 refl refl refl
      refl refl refl fresh (λ k h. ground arith) (ground arith) (omega arith)

abbrev one_command : State
one_command = started env start_message writer (popen_of env start_message no_command) no_command

one_command-Inv : Inv one_command
unfolding find
one_command-Inv =
    started-Inv env start_message writer (popen_of env start_message no_command) no_command
      no_command-Inv (refl, tt)

destroy_removes_example :
    (s' : State) × (destroy_normal_cmd env destroy_message one_command ≡ done s')
    × Inv s'
    × (find client s'.client_cmd ≡ none)
    × ((c : SaceClientIdentifier)
        → (c == client) ≡ false
        → find c s'.client_cmd ≡ find c one_command.client_cmd)
    × ((j : ℕ)
        → find j s'.seq_cmd ≡ (
            if is_listed j (labels_of client one_command.client_cmd)
            then none
            else find j one_command.seq_cmd))
destroy_removes_example =
    destroy_removes env destroy_message one_command (λ fd. looks-Ends) one_command-Inv
