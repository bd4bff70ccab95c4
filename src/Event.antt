-- ===== src/Event.antt =====
-- SaceEvent (saced/SaceEvent.cpp): services that triggers start. The state is what `event_mutex`
-- guards, with the message that every stop posts again: it is one object, so the queue holds
-- pointers to `stop_cmd` and not copies. The handlers note a write of the event file as an effect.
pub mod Handle
pub mod Delivery
pub mod Restart
pub mod File
pub mod Parser
pub mod Lines
pub mod Attributes
pub mod Blocks
pub mod Content
pub mod Writer
pub mod Reread
pub mod Rewrite
pub mod Monitor
use sa_excutor.Common.{
  ℕ, Bool, true, false, ◌||◌, Str, List, [], ◌∷◌, Option, none, some, nat_eq, str_eq, Str_eq,
  if◌then◌else◌,
}
use sa_excutor.Common.Map.{Map, find, insert, update}
use sa_excutor.Params.Trigger.{Trigger, any_triggered}
use sa_excutor.Types.{
  minus_one, SaceWriter, same_writer, SaceCommand, SaceResult, SaceStatusResponse,
  SaceReaderMessage, SaceMessageHandlerType, type_service, service_cmd_start, service_flag_event,
}

-- `SaceEvent::Service`.
pub record Service : Type 0 where
  pub triggers : List Trigger
  pub cmd : SaceCommand

pub data Effect : Type 0 where
  sent : SaceWriter → SaceResult → Effect
  responded : SaceWriter → SaceStatusResponse → Effect
  posted : SaceReaderMessage → Effect
  posted_stop written : Effect

pub record State : Type 0 where
  pub events : Map Str Service
  pub writers : Map Str (List SaceWriter)
  pub running_events : Map Str ℕ
  pub failed_events : List Str
  pub starting_events : List Str
  pub event_writer : SaceWriter
  pub stop_cmd : SaceCommand
  pub effects : List Effect

-- `std::set<string>`.
unfoldable pub is_member : Str → List Str → Bool
is_member x [] = false
is_member x (y ∷ ys) = str_eq x y || is_member x ys

unfoldable pub set_insert : Str → List Str → List Str
unfolding is_member
set_insert x ys = if is_member x ys then ys else x ∷ ys

unfoldable pub set_erase : Str → List Str → List Str
set_erase x [] = []
set_erase x (y ∷ ys) = let rest = set_erase x ys in if str_eq x y then rest else y ∷ rest

abbrev pub emit : Effect → State → State
emit e s = record s { effects = e ∷ s.effects }

-- `clone_service_command`.
unfoldable pub clone_service_command : SaceCommand → SaceCommand
clone_service_command old = record old {
  extra = [];
  type = type_service;
  cmd_type = service_cmd_start;
  cmd_flags = service_flag_event;
}

-- A message to the service executor; its client is that of the default constructor.
abbrev pub service_message : SaceCommand → SaceWriter → SaceReaderMessage
service_message cmd writer = record {
  handler = SaceMessageHandlerType.service;
  cmd = cmd;
  writer = some writer;
  client = record { uid = minus_one; pid = minus_one };
}

unfoldable pub start_event : Service → State → State
unfolding set_insert clone_service_command
start_event service s =
    emit (posted (service_message (clone_service_command service.cmd) s.event_writer))
      (record s { starting_events = set_insert service.cmd.name s.starting_events })

unfoldable pub stop_event : ℕ → ℕ → State → State
stop_event label sequence s =
    let cmd = s.stop_cmd in
    emit posted_stop (record s {
      stop_cmd = record cmd {
        label = label;
        sequence = if nat_eq sequence 0 then cmd.sequence else sequence;
      };
    })

add_to : SaceWriter → List SaceWriter → List SaceWriter
add_to wr [] = wr ∷ []
add_to wr (w ∷ ws) = if same_writer w (some wr) then w ∷ ws else w ∷ add_to wr ws

unfoldable pub add_writers : Str → SaceWriter → State → State
unfolding add_to
add_writers name wr s = record s {
  writers = elim (find name s.writers) [
    | none ↦ insert name (wr ∷ []) s.writers
    | some ws ↦ update name (add_to wr) s.writers
  ];
}

-- The first part of `event_monitor_thread`'s round: the triggers, then the failed events. The
-- thread's copy of the map shares the services, so a trigger that fires changes them in place.
unfoldable pub fire : (Str → Str) → Map Str Service → State → Map Str Service × State
unfolding start_event
fire property_get [] s = ([], s)
fire property_get ((name, service) ∷ m) s =
    let (triggers, fired) = any_triggered property_get service.triggers in
    let service' : Service = record service { triggers = triggers } in
    let (rest, s') = fire property_get m (if fired then start_event service' s else s) in
    ((name, service') ∷ rest, s')

unfoldable pub restart_failed : Map Str Service → List Str → State → State
restart_failed cmds [] s = s
restart_failed cmds (name ∷ names) s =
    restart_failed cmds names
      (elim (find name cmds) [ none ↦ s | some service ↦ start_event service s ])

unfoldable pub monitor_round : (Str → Str) → State → State
unfolding fire restart_failed
monitor_round property_get s =
    let (events, s') = fire property_get s.events (record s { failed_events = [] }) in
    restart_failed events s.failed_events (record s' { events = events })
