-- ===== src/Executor.antt =====
-- SaceExcutor of saced/SaceExcutor.cpp: a queue under a mutex, a semaphore, and one thread that
-- takes the messages. A step is what happens between two points where another thread can run: a
-- critical section, a wait, a post, the run of a handler.
pub mod Queue
pub mod Drain
pub mod Stop
pub mod Dispatcher
use sa_excutor.Common.{
  ℕ, suc, ◌+◌, ◌≡◌, Bool, true, false, List, [], ◌∷◌, ◌++◌, Option, none, some, if◌then◌else◌,
}
use sa_excutor.Types.Message.{SaceMessageHandlerType, SaceMessageType, SaceMessageHeader}

-- `excute_command_thread`: in `sem_wait`, past it, in a handler, after `pthread_exit`.
pub data Worker : Type 0 where
  waiting woken stopped : Worker
  handling : SaceMessageHeader → Worker

-- `mCmdQueue`, the value of `mSyncSem`, `mExit`, the thread, the senders between their test of
-- `mExit` and their lock, the threads between their unlock and their post, and two logs: the
-- messages in the order in which they were queued, and in the order in which they were handled.
pub record State : Type 0 where
  pub queue : List SaceMessageHeader
  pub sem : ℕ
  pub exit : Bool
  pub worker : Worker
  pub senders : List SaceMessageHeader
  pub posting : ℕ
  pub queued : List SaceMessageHeader
  pub handled : List SaceMessageHeader

-- After `init`.
unfoldable pub init : State
init = record {
  queue = [];
  sem = 0;
  exit = false;
  worker = waiting;
  senders = [];
  posting = 0;
  queued = [];
  handled = [];
}

-- The kinds of handler that `excuteCommand` can call.
pub data Handler : Type 0 where
  excute_normal excute_event excute_other : Handler

unfoldable pub excute_command : SaceMessageHeader → Handler
excute_command msg = elim msg.type [
  | SaceMessageType.normal ↦ excute_normal
  | SaceMessageType.event ↦ excute_event
]

-- The critical section of `sendCommandMessage`.
abbrev pub push : SaceMessageHeader → List SaceMessageHeader → State → State
push msg senders s = record s {
  queue = s.queue ++ msg ∷ [];
  senders = senders;
  posting = suc s.posting;
  queued = s.queued ++ msg ∷ [];
}

-- The critical section of the thread, when it is not to exit: the front is taken, if there is one.
unfoldable pub take_front : List SaceMessageHeader → State → State
take_front [] s = record s { worker = waiting }
take_front (msg ∷ rest) s = record s { queue = rest; worker = handling msg }

unfoldable pub pop : State → State
unfolding take_front
pop s = take_front s.queue s

-- The thread tests `mExit` when it is past its wait.
unfoldable pub wake : State → State
unfolding pop
wake s = if s.exit then record s { worker = stopped } else pop s

pub data Step : State → State → Type 0 where
  -- `sendCommandMessage`
  check :
      {s : State} (msg : SaceMessageHeader)
      → s.exit ≡ false
      → Step s (record s { senders = msg ∷ s.senders })
  lock :
      {s : State} (msg : SaceMessageHeader) (before after : List SaceMessageHeader)
      → s.senders ≡ before ++ msg ∷ after
      → Step s (push msg (before ++ after) s)
  post :
      {s : State} (n : ℕ) → s.posting ≡ suc n → Step s (record s { posting = n; sem = suc s.sem })
  -- `excute_command_thread`; a wait that a signal interrupts goes on as if it were posted
  wait :
      {s : State} (n : ℕ)
      → s.worker ≡ waiting
      → s.sem ≡ suc n
      → Step s (record s { sem = n; worker = woken })
  interrupt : {s : State} → s.worker ≡ waiting → Step s (record s { worker = woken })
  timeout : {s : State} → s.worker ≡ waiting → s.sem ≡ 0 → Step s s
  wakes : {s : State} → s.worker ≡ woken → Step s (wake s)
  handle :
      {s : State} (msg : SaceMessageHeader)
      → s.worker ≡ handling msg
      → Step s (record s { worker = waiting; handled = s.handled ++ msg ∷ [] })
  -- `destroy_excute_thread`
  destroy : {s : State} → Step s (record s { exit = true; posting = suc s.posting })

pub data Steps : State → State → Type 0 where
  here : {s : State} → Steps s s
  then : {s t u : State} → Step s t → Steps t u → Steps s u

abbrev pub Reachable : State → Type 0
Reachable s = Steps init s
