-- ===== src/Examples/Events.antt =====
-- Runs of SaceEvent and of the client's objects.
use sa_excutor.Common.{ℕ, ◌≡◌, refl, true, false, codes, [], ◌∷◌, none, some, str_eq, Str_eq}
use sa_excutor.Params.Trigger.{Trigger}
use sa_excutor.Types.{SaceWriter, Channel, SaceCommand, SaceResult, SaceStatusResponse}
use sa_excutor.Types.Command.{
  SaceResultStatus, SaceResultType, SaceResponseStatus, SaceResponseType,
}
use sa_excutor.Service.{Env}
use sa_excutor.Service as Services
use sa_excutor.Service.Handle as Handlers
use sa_excutor.Event.{Service, State}
use sa_excutor.Common.{◌++◌, arith}
use sa_excutor.Wire.Laws.{Item}
use sa_excutor.Wire.Result.Layout.{result_items, carried_fd}
use sa_excutor.Event.Handle.{handle_result}
use sa_excutor.Event.Monitor.{read_message, first_only}
use sa_excutor.Examples.Parcels.{value_list, value_list_laws}
use sa_excutor.Client.{
  SaceCommandObj, SaceServiceObj, err_ok, state_command, get_state, request_state, returned,
  invalid, stop, pause, restart,
}
use sa_excutor.Client.Requests.{state_lost}
use sa_excutor.Examples.{platform, limit, writer, command}

abbrev env : Env
env = record {
  addr = 4096;
  fork = some 300;
  start_time = codes "2020";
  platform = platform;
  gid = 0;
  limit = limit;
}

-- The event "svc", with the RESTART flag.
abbrev event_cmd : SaceCommand
event_cmd = record (command 0 0 (codes "true")) {
  cmd_flags = 1;
  command_params = some (record {
    uid = [];
    gid = [];
    supp_gids = [];
    rlimits = [];
    seclabel = [];
    capabilities = [];
    event = some (record {
      property_key = codes "sys.ok" ∷ [];
      property_value = codes "1" ∷ [];
      boot = false;
    });
  });
}

abbrev ok_trigger : Trigger
ok_trigger = Trigger.property (codes "sys.ok") (codes "1") []

abbrev event_service : Service
event_service = record { triggers = ok_trigger ∷ []; cmd = event_cmd }

abbrev event_writer : SaceWriter
event_writer = record { id = 1; channel = Channel.event_pipe 9 }

abbrev no_event : State
no_event = record {
  events = [];
  writers = [];
  running_events = [];
  failed_events = [];
  starting_events = [];
  event_writer = event_writer;
  stop_cmd = command 1 0 [];
  effects = [];
}

-- "svc" runs with the label 5, and a START of it is not answered yet.
abbrev one_event : State
one_event = record no_event {
  events = (codes "svc", event_service) ∷ [];
  running_events = (codes "svc", 5) ∷ [];
  starting_events = codes "svc" ∷ [];
}

abbrev killed : ℕ → SaceStatusResponse
killed label = record {
  label = label;
  name = codes "svc";
  type = SaceResponseType.service;
  status = SaceResponseStatus.signal;
  extra = [];
}

abbrev label_result : SaceResult
label_result = record {
  label = 6;
  sequence = 9;
  name = codes "svc";
  result_type = SaceResultType.label;
  result_status = SaceResultStatus.ok;
  result_extra = 6 ∷ 0 ∷ 0 ∷ 0 ∷ 0 ∷ 0 ∷ 0 ∷ 0 ∷ [];
  result_fd = none;
}

abbrev held : SaceCommandObj
held = record {
  cmd = codes "ls";
  label = 5;
  fd = 7;
  input = true;
  error = err_ok;
  has_callback = true;
  sequence = 10;
  thread = codes "77:77";
  effects = [];
}

abbrev service_obj : SaceServiceObj
service_obj = record {
  label = 5;
  name = codes "svc";
  command = codes "true";
  error = err_ok;
  has_callback = false;
  sequence = 10;
  thread = codes "77:77";
  effects = [];
}

abbrev no_service : Services.State
no_service = record { running = []; seq = []; names = []; heap = []; effects = [] }

state_lost_example :
    let answer : SaceCommand → SaceResult = Handlers.first_result in
    let after = (request_state answer service_obj).0 in
    (get_state answer service_obj ≡ returned (after, 5))
    × ((later : SaceCommand → SaceResult)
        → (stop later after ≡ invalid)
          × (pause later after ≡ invalid)
          × (restart later after ≡ invalid))
unfolding Handlers.dispatch Handlers.handle_service_info str_eq
state_lost_example =
    state_lost env writer no_service no_service (Handlers.first_result (state_command service_obj))
      Handlers.first_result service_obj refl refl refl

-- A label for the event that starts, and the start of another message behind it in the pipe.
abbrev two_messages : value_list.Parcel
two_messages = ([], (Item.u32 44 ∷ result_items 0 label_result) ++ Item.u32 30 ∷ [])

first_only_example :
    read_message value_list two_messages one_event
    ≡ handle_result
        (record label_result {
          result_fd = carried_fd 0 label_result.result_type label_result.result_fd;
        })
        one_event
first_only_example =
    first_only value_list value_list_laws 0 44 label_result (Item.u32 30 ∷ []) two_messages
      one_event (omega arith) refl
