-- ===== src/Process.antt =====
-- The process functions of saced/SaceExcutor.cpp: `sace_popen`, `sace_pclose` and the global list
-- `pidlist`. The answers of the system calls are arguments.
pub mod Child
pub mod Open
pub mod Close
use sa_excutor.Common.{
  ℕ, zero, suc, ◌+◌, Bool, true, false, List, [], ◌∷◌, Option, none, some, leb, nat_eq,
  if◌then◌else◌,
}
use sa_excutor.Types.{minus_one, is_negative}

-- `struct pid`; the newest entry is the head of the list.
pub record PidEntry : Type 0 where
  pub fd : ℕ
  pub pid : ℕ

-- What `pipe2`, `malloc` and `vfork` answer in the parent.
pub record PopenEnv : Type 0 where
  pub pipe : Option (ℕ × ℕ)
  pub memory : Bool
  pub vfork : Option ℕ

-- What `sace_popen` leaves: the list, its result, the pid it stores, and the ends it closed.
pub record Opened : Type 0 where
  pub pidlist : List PidEntry
  pub ret : ℕ
  pub out_pid : Option ℕ
  pub closed : List ℕ

-- The part after `vfork` in the parent: for "r" the read end is kept, for "w" the write end.
popen_forked : Bool → ℕ × ℕ → ℕ → List PidEntry → Opened
popen_forked write (read_end, write_end) pid pidlist =
    let kept = if write then write_end else read_end in
    let other = if write then read_end else write_end in
    record {
      pidlist = record { fd = kept; pid = pid } ∷ pidlist;
      ret = kept;
      out_pid = some pid;
      closed = other ∷ [];
    }

-- After `pipe2`: without memory or without a child both ends are closed.
popen_piped : Bool → ℕ × ℕ → Bool → Option ℕ → List PidEntry → Opened
unfolding popen_forked
popen_piped write ends false child pidlist = record {
  pidlist = pidlist;
  ret = minus_one;
  out_pid = none;
  closed = ends.0 ∷ ends.1 ∷ [];
}
popen_piped write ends true none pidlist = record {
  pidlist = pidlist;
  ret = minus_one;
  out_pid = none;
  closed = ends.0 ∷ ends.1 ∷ [];
}
popen_piped write ends true (some pid) pidlist = popen_forked write ends pid pidlist

unfoldable pub sace_popen : Bool → PopenEnv → List PidEntry → Opened
unfolding popen_piped
sace_popen write env pidlist = elim env.pipe [
  | none ↦ record { pidlist = pidlist; ret = minus_one; out_pid = none; closed = [] }
  | some ends ↦ popen_piped write ends env.memory env.vfork pidlist
]

-- The answer of `waitpid` with WNOHANG: the status of a child that ended, 0, or an error.
pub data Waited : Type 0 where
  reaped : ℕ → Waited
  running failed : Waited

abbrev pub close_wait_kill_time : ℕ
close_wait_kill_time = 1000

abbrev pub close_wait_total_time : ℕ
close_wait_total_time = 2000

-- The loop of `sace_pclose` from its `round`-th `waitpid` on, and the number of SIGKILLs it sends.
-- `none` means that it has not ended within the fuel.
unfoldable pub close_wait : (ℕ → Waited) → ℕ → ℕ → ℕ → ℕ → Option (ℕ × ℕ)
close_wait waits zero round wait_time kills = none
close_wait waits (suc fuel) round wait_time kills = elim (waits round) [
  | failed ↦ some (minus_one, kills)
  | reaped pstat ↦ some (pstat, kills)
  | running ↦
      let wait_time' = wait_time + 100 in
      let killed = close_wait waits fuel (suc round) wait_time' (suc kills) in
      let waited = close_wait waits fuel (suc round) wait_time' kills in
      if leb close_wait_kill_time wait_time'
      then killed
      else if leb close_wait_total_time wait_time'
      then some (minus_one, kills)
      else waited
]

unfoldable pub find_fd : ℕ → List PidEntry → Option PidEntry
find_fd fd [] = none
find_fd fd (cur ∷ rest) = if nat_eq cur.fd fd then some cur else find_fd fd rest

unfoldable pub remove_fd : ℕ → List PidEntry → List PidEntry
remove_fd fd [] = []
remove_fd fd (cur ∷ rest) = if nat_eq cur.fd fd then rest else cur ∷ remove_fd fd rest

-- What `sace_pclose` leaves: the list, its result, the SIGKILLs sent, and whether `fd` was closed.
pub record Closed : Type 0 where
  pub pidlist : List PidEntry
  pub ret : ℕ
  pub kills : ℕ
  pub closed : Bool

unfoldable pub sace_pclose : (ℕ → Waited) → ℕ → ℕ → List PidEntry → Option Closed
unfolding find_fd remove_fd
sace_pclose waits fuel fd pidlist =
    if is_negative fd
    then some (record { pidlist = pidlist; ret = minus_one; kills = 0; closed = false })
    else elim (find_fd fd pidlist) [
      | none ↦ some (record { pidlist = pidlist; ret = minus_one; kills = 0; closed = false })
      | some cur ↦ elim (close_wait waits fuel 0 0 0) [
        | none ↦ none
        | some (ret, kills) ↦
            some
              (record { pidlist = remove_fd fd pidlist; ret = ret; kills = kills; closed = true })
      ]
    ]
