-- ===== src/Event/Delivery.antt =====
-- What becomes of an event that is added, started and deleted.
use sa_excutor.Common.{◌≡◌, refl, true, Str, List, [], ◌∷◌, none, some, Str_eq, done}
use sa_excutor.Common.Map.{find, erase}
use sa_excutor.Params.Trigger.{Trigger, any_triggered}
use sa_excutor.Types.{SaceWriter, SaceCommand, SaceReaderMessage, event_type_add, event_type_del}
use sa_excutor.Service.{Env}
use sa_excutor.Service.Handle as Services
use sa_excutor.Event.{Service, State, sent, written, emit, is_member}
use sa_excutor.Types.Command.{SaceResultStatus}
use sa_excutor.Event.Handle.{
  with_status, triggers_of, added, started, forward_result, handle_result,
}

-- The answer that the service executor gives to a START that succeeds, for an event that is
-- starting: the event never gets into the running events, and stays among the starting ones.
pub started_unrecorded :
    (env : Env) (cmd : SaceCommand) (s : State)
    → is_member cmd.name s.starting_events ≡ true
    → (s' : State) × (handle_result (Services.start_result env cmd) s ≡ done s')
      × (s'.running_events ≡ s.running_events)
      × (s'.starting_events ≡ s.starting_events)
unfolding handle_result started forward_result
started_unrecorded env cmd s starting =
    (forward_result (Services.start_result env cmd) s, rw starting refl, refl, refl)

module _ (property_get : Str → Str) (add del : SaceReaderMessage) (writer writer' : SaceWriter)
    (s : State) (t : Trigger) (ts : List Trigger) (adds : add.cmd.cmd_type ≡ event_type_add)
    (deletes : del.cmd.cmd_type ≡ event_type_del) (from : add.writer ≡ some writer)
    (from' : del.writer ≡ some writer') (same_name : del.cmd.name ≡ add.cmd.name)
    (no_stop : del.cmd.extra ≡ []) (new : find add.cmd.name s.events ≡ none)
    (parsed : triggers_of add.cmd.command_params ≡ done (t ∷ ts)) where
  abbrev service : Service
  service = record { triggers = (any_triggered property_get (t ∷ ts)).0; cmd = add.cmd }

  abbrev s₁ : State
  s₁ =
      emit (sent writer (with_status SaceResultStatus.ok add.cmd))
        (emit written (added property_get add.cmd (t ∷ ts) s))

  abbrev s₂ : State
  s₂ =
      emit (sent writer' (with_status SaceResultStatus.ok del.cmd))
        (emit written (record s₁ { events = erase del.cmd.name s₁.events }))
