-- ===== src/Examples/Daemon.antt =====
-- Runs of an executor's queue and of the dispatcher.
use sa_excutor.Common.{refl, false, [], ◌∷◌, true}
use sa_excutor.Types.Message.{SaceMessageHandlerType, SaceMessageType, SaceMessageHeader}
use sa_excutor.Executor.{State, waiting, stopped, init, Step, Steps, Reachable}
use sa_excutor.Executor.Queue.{Inv, Reachable-Inv}

abbrev msg : SaceMessageHeader
msg = record { handler = SaceMessageHandlerType.normal; type = SaceMessageType.normal; id = 1 }

-- A message is queued, and its post is still to come.
abbrev queued_one : State
queued_one = record {
  queue = msg ∷ [];
  sem = 0;
  exit = false;
  worker = waiting;
  senders = [];
  posting = 1;
  queued = msg ∷ [];
  handled = [];
}

queued_one-Reachable : Reachable queued_one
unfolding init
queued_one-Reachable =
    Steps.then (Step.check msg refl) (Steps.then (Step.lock msg [] [] refl) Steps.here)

Reachable-Inv_example : Inv queued_one
Reachable-Inv_example = Reachable-Inv queued_one queued_one-Reachable

-- The thread has stopped with a message in its queue; a sender had passed its test before.
abbrev ended : State
ended = record {
  queue = msg ∷ [];
  sem = 0;
  exit = true;
  worker = stopped;
  senders = msg ∷ [];
  posting = 0;
  queued = msg ∷ [];
  handled = [];
}
