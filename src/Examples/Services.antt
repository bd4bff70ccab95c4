-- ===== src/Examples/Services.antt =====
-- Runs of SaceServiceExcutor.
use sa_excutor.Common.{
  ℕ, ◌≡◌, refl, Str, codes, [], ◌∷◌, none, some, arith, nat_eq, if◌then◌else◌, done, undefined,
  ℕ_eq, Str_eq,
}
use sa_excutor.Common.Map.{find, insert}
use sa_excutor.Common.Bytes.{le_bytes, of_le_bytes, take}
use sa_excutor.Types.{SaceCommand, SaceMessageHandlerType, SaceReaderMessage, sequence_to_label}
use sa_excutor.Types.Command.{SaceResultStatus, SaceResponseStatus}
use sa_excutor.Service.{
  ServiceInfo, State, Env, WaitAnswer, exited, signaled, still, put, add_writer, send_response,
}
use sa_excutor.Service.Info.{
  ServiceState, running, paused, died, get_by_name, image, of_image, extra_bufer_len,
}
use sa_excutor.Service.Monitor.{monitor_service_status, response_of, ended, get_elem?, remove_at}
use sa_excutor.Service.Scan.{CalmBut, released}
use sa_excutor.Service.Handle.{
  excute_normal, start_service, started, start_result, new_info, info_result, handle_service_info,
}
use sa_excutor.Service.Invariant.{Inv}
use sa_excutor.Service.Keeps.{KeepsInv, started-Inv, monitor_keeps}
use sa_excutor.Service.Total.{service_returns}
use sa_excutor.Service.Reports.{service_freed, stop_told, told}
use sa_excutor.Service.Restart.{restart_dangles, two_ended}
use sa_excutor.Service.Query.{start-info}
use sa_excutor.Service.Uninit.{destroy}
use sa_excutor.Service.Scan.{In}
use sa_excutor.Service.Destroy.{destroy_frees}
use sa_excutor.Service.Image.{of_image-image}
use sa_excutor.Examples.{platform, limit, writer, reader, command, message}

abbrev env : Env
env = record {
  addr = 4096;
  fork = some 300;
  start_time = codes "2020";
  platform = platform;
  gid = 0;
  limit = limit;
}

abbrev service : ServiceState → Str → ℕ → ServiceInfo
service state name label = record {
  name = name;
  pid = 300;
  start_time = codes "2020";
  state = state;
  cmd_line = codes "true";
  writer = writer ∷ reader ∷ [];
  label = label;
  flags = 0;
}

-- One service.
abbrev one : ServiceState → State
one state = record {
  running = 4096 ∷ [];
  seq = (5, 4096) ∷ [];
  names = (codes "web", 4096) ∷ [];
  heap = (4096, service state (codes "web") 5) ∷ [];
  effects = [];
}

abbrev two : State
two = record {
  running = 4096 ∷ 8192 ∷ [];
  seq = (5, 4096) ∷ (6, 8192) ∷ [];
  names = (codes "web", 4096) ∷ (codes "db", 8192) ∷ [];
  heap = (4096, service running (codes "web") 5) ∷ (8192, service running (codes "db") 6) ∷ [];
  effects = [];
}

abbrev no_service : State
no_service = record { running = []; seq = []; names = []; heap = []; effects = [] }

no_service-Inv : Inv no_service
unfolding find
no_service-Inv = record {
  entry = λ a m. elim m [ ];
  by_label = λ l a h. ground arith;
  by_name = λ n a h. ground arith;
  distinct = tt;
}

-- "svc" after its START, at the address 4096 with the label 9 + 4096 * 2^32.
abbrev start_cmd : SaceCommand
start_cmd = command 0 0 (codes "true")

abbrev svc_label : ℕ
svc_label = 17592186044425

abbrev one_started : State
one_started = started env start_cmd writer 300 no_service

abbrev svc : ServiceInfo
svc = new_info env start_cmd writer 300

one_started-Inv : Inv one_started
unfolding find
one_started-Inv = started-Inv env start_cmd writer 300 no_service no_service-Inv (refl, refl) refl

abbrev ends : WaitAnswer → ℕ → WaitAnswer
ends w k = if nat_eq k 0 then w else still

ends-CalmBut : (w : WaitAnswer) → CalmBut 0 (ends w)
ends-CalmBut w i apart = rw apart refl

monitor_keeps_example : KeepsInv (monitor_service_status (ends (exited 0)) one_started)
monitor_keeps_example =
    monitor_keeps (ends (exited 0)) 0 one_started one_started-Inv (ends-CalmBut (exited 0))

abbrev later_env : Env
later_env = record env { addr = 8192 }

abbrev stop_message : SaceReaderMessage
stop_message = message SaceMessageHandlerType.service (command 1 svc_label [])

service_returns_example :
    KeepsInv (excute_normal later_env (ends (signaled 15)) stop_message one_started)
unfolding find insert sequence_to_label
service_returns_example =
    service_returns later_env (ends (signaled 15)) 0 stop_message writer one_started refl
      one_started-Inv (refl, omega arith, (refl, refl)) (ends-CalmBut (signaled 15))

service_freed_example :
    (s' : State) × (monitor_service_status (ends (exited 7)) one_started ≡ done s')
    × (s'.effects
        ≡ send_response
            (response_of SaceResponseStatus.exit (7 ∷ 0 ∷ 0 ∷ 0 ∷ []) svc)
            (writer ∷ [])
            one_started.effects)
    × (s'.running ≡ [])
    × (find (codes "svc") s'.names ≡ none)
    × (find svc_label s'.seq ≡ none)
    × (find 4096 s'.heap ≡ none)
unfolding find insert ended le_bytes sequence_to_label get_elem? remove_at
service_freed_example =
    service_freed (ends (exited 7)) 0 4096 svc one_started one_started-Inv refl refl
      (ends-CalmBut (exited 7)) died (response_of SaceResponseStatus.exit (7 ∷ 0 ∷ 0 ∷ 0 ∷ []) svc)
      refl

stop_told_example :
    excute_normal later_env (ends (signaled 15)) stop_message one_started
    ≡ done (released 0 4096 svc (told stop_message writer svc one_started) one_started)
unfolding find insert sequence_to_label get_elem?
stop_told_example =
    stop_told later_env (ends (signaled 15)) stop_message writer 0 4096 svc one_started
      one_started-Inv refl refl refl (ends-CalmBut (signaled 15)) refl refl refl refl

restart_dangles_example :
    (s' : State) × (excute_normal env
        (ends (exited 0))
        (message SaceMessageHandlerType.service (command 3 5 []))
        (one paused)
      ≡ done s')
    × (s'.running ≡ 4096 ∷ [])
    × (find 4096 s'.heap ≡ none)
    × ((later : ℕ → WaitAnswer) → monitor_service_status later s' ≡ undefined)
unfolding find
restart_dangles_example =
    restart_dangles env (ends (exited 0)) (message SaceMessageHandlerType.service (command 3 5 []))
      writer 4096 0 (service paused (codes "web") 5) (one paused) refl refl refl refl refl refl refl

two_ended_example : monitor_service_status (λ _. exited 0) two ≡ undefined
unfolding find ended
two_ended_example =
    two_ended (λ _. exited 0) 4096 8192 (service running (codes "web") 5)
      (service running (codes "db") 6) two _ _ refl refl refl refl refl refl refl refl

abbrev query_cmd : SaceCommand
query_cmd = command 4 0 get_by_name

start-info_example :
    (start_service env start_cmd writer no_service ≡ done (one_started, start_result env start_cmd))
    × ((start_result env start_cmd).result_status ≡ SaceResultStatus.ok)
    × (of_le_bytes (start_result env start_cmd).result_extra ≡ svc_label)
    × (handle_service_info query_cmd reader one_started
        ≡ done (
          put 4096 (record svc { writer = add_writer reader (writer ∷ []) }) one_started,
          info_result query_cmd svc,
        ))
    × ((info_result query_cmd svc).result_status ≡ SaceResultStatus.ok)
    × (of_image (info_result query_cmd svc).result_extra
        ≡ record { name = codes "svc"; cmd = codes "true"; state = 2; label = svc_label })
unfolding find take sequence_to_label
start-info_example =
    start-info env start_cmd query_cmd writer reader no_service 300 (refl, refl) refl (omega arith)
      refl refl refl refl (refl, (refl, (refl, tt))) (refl, (refl, (refl, (refl, tt))))

of_image-image_example :
    of_image (
      take extra_bufer_len
        (image (record { name = codes "svc"; cmd = codes "true"; state = 2; label = 5 })))
    ≡ record { name = codes "svc"; cmd = codes "true"; state = 2; label = 5 }
unfolding take
of_image-image_example =
    of_image-image (record { name = codes "svc"; cmd = codes "true"; state = 2; label = 5 })
      (refl, (refl, (refl, tt))) (refl, (refl, (refl, (refl, tt)))) (omega arith) (omega arith)

destroy_frees_example :
    (s' : State) × (destroy one_started ≡ done s')
    × (s'.running ≡ [])
    × (s'.seq ≡ [])
    × (s'.names ≡ [])
    × ((a : ℕ) → In a one_started.running → find a s'.heap ≡ none)
destroy_frees_example = destroy_frees one_started one_started-Inv
