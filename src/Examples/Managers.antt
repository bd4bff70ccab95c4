-- ===== src/Examples/Managers.antt =====
-- Runs of the client's manager.
use sa_excutor.Common.{
  ℕ, ◌+◌, ◌≡◌, refl, true, Str, codes, [], ◌∷◌, none, some, done, undefined, ℕ_eq,
}
use sa_excutor.Common.Map.{find, insert}
use sa_excutor.Common.Bytes.{replicate, take, drop, of_le_bytes}
use sa_excutor.Params.{SaceCommandParams}
use sa_excutor.Types.{
  SaceCommand, SaceResult, SaceStatusResponse, new_command, new_result, new_response,
  sequence_to_label,
}
use sa_excutor.Types.Command.{SaceResultStatus, SaceResultType}
use sa_excutor.Service.Info.{of_image, c_str}
use sa_excutor.Client.{
  ErrorCode, SaceServiceObj, SaceCommandObj, response_to_error, result_to_error, stop,
}
use sa_excutor.Manager.{Manager, Env, Notice, new_manager, run_command, send}
use sa_excutor.Manager.Services.{check_service, info_command, event_info_command, hold}
use sa_excutor.Manager.Response.{on_response, destroy_command, set_callback}
use sa_excutor.Manager.Valid.{IsValid}
use sa_excutor.Manager.Reach.{Reachable, Step, Reachable-IsValid}
use sa_excutor.Manager.Ended.{Throws, service_told}
use sa_excutor.Manager.Errors.{check_service_fails, timed_out_destroyed}

-- Every query is answered by a service with a label of 0, and nothing else in its 208 bytes.
abbrev described : SaceResult
described = record new_result { result_type = SaceResultType.extra; result_extra = replicate 208 0 }

abbrev answering : SaceResult → Env
answering r = record { answer = λ _. r; sequence = λ i. 100 + i; thread = codes "9:9"; unset = 5 }

abbrev failing : SaceResultStatus → Env
failing status = answering (record new_result { result_status = status })

abbrev begun : Manager
begun = set_callback true (new_manager 2)

begun-Reachable : Reachable 2 begun
begun-Reachable = Reachable.next Reachable.start (Step.set true)

abbrev params_of : Str → SaceCommandParams
params_of uid = record {
  uid = uid;
  gid = [];
  supp_gids = [];
  rlimits = [];
  seclabel = [];
  capabilities = [];
  event = none;
}

abbrev held : Manager
held =
    (hold
      (record {
        label = 0;
        name = [];
        command = [];
        error = ErrorCode.err_ok;
        has_callback = true;
        sequence = 103;
        thread = codes "9:9";
        effects = [];
      })
      (send (answering described) (info_command (answering described) (codes "svc")) begun).0).0

-- A manager that holds a service under the label 0.
held-Reachable : Reachable 2 held
unfolding check_service hold send set_callback replicate of_image new_result new_manager new_command
    info_command insert of_le_bytes c_str take drop
held-Reachable =
    Reachable.next begun-Reachable
      (Step.checked (answering described) (codes "svc") none none (held, 0) refl)

abbrev response : SaceStatusResponse
response = record new_response { label = 0; name = codes "svc" }

service_told_example :
    (o : SaceServiceObj) × (find 0 (on_response response held).service_objs ≡ some o)
    × (o.error ≡ response_to_error response.status)
    × (find 0 (on_response response held).services ≡ none)
    × ((on_response response held).notices ≡ Notice.service 0 0 o.name o.command ∷ [])
    × ((answer : SaceCommand → SaceResult) → Throws (stop answer o))
unfolding find hold send set_callback new_manager new_response insert
service_told_example = service_told 0 0 response held-Reachable refl refl refl refl

check_service_fails_example :
    let env = failing SaceResultStatus.exists in
    (check_service env (codes "svc") none none begun ≡ undefined)
    × ((m' : Manager) × (id : ℕ) × (o : SaceServiceObj) × (check_service env
            (codes "svc")
            (some (codes "/bin/true"))
            none
            begun
          ≡ done (m', id))
        × (m'.services ≡ begun.services)
        × (find id m'.service_objs ≡ some o)
        × (o.error ≡ result_to_error SaceResultStatus.exists)
        × (o.label ≡ sequence_to_label 101 0))
unfolding event_info_command new_command
check_service_fails_example =
    check_service_fails (failing SaceResultStatus.exists) (codes "svc") (codes "/bin/true") none
      begun (cc) (cc) (cc)

timed_out_destroyed_example :
    (o : SaceCommandObj) × (find
        (run_command (failing SaceResultStatus.timeout) (codes "ls") none true begun).1
        (run_command (failing SaceResultStatus.timeout) (codes "ls") none true begun).0.command_objs
      ≡ some o)
    × (destroy_command (λ _. described) o ≡ undefined)
timed_out_destroyed_example =
    timed_out_destroyed (failing SaceResultStatus.timeout) (codes "ls") none true begun
      (λ _. described) refl refl

Reachable-IsValid_example : IsValid held
Reachable-IsValid_example = Reachable-IsValid held-Reachable
