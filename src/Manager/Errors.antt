-- ===== src/Manager/Errors.antt =====
-- How calls of SaceManager fail, and which of their arguments count.
use sa_excutor.Common.{
  ℕ, ◌≡◌, ◌≢◌, refl, ap, ◌∙◌, Bool, false, Str, ◌∷◌, Option, none, some, ℕ_eq, ==_refl,
  if◌then◌else◌, arith, Run, done, undefined, ◌>>=◌,
}
use sa_excutor.Common.Map.{find}
use sa_excutor.Params.{SaceCommandParams}
use sa_excutor.Types.{SaceCommand, SaceResult, is_negative, sequence_to_label}
use sa_excutor.Types.Command.{SaceResultStatus, SaceResultType}
use sa_excutor.Client.{ErrorCode, result_to_error, SaceServiceObj, SaceCommandObj, is_ok}
use sa_excutor.Manager.{
  Manager, Env, send, run_command, start_command, ran_command, failed_service, failed_command,
  keep_command, keep_service, live_service,
}
use sa_excutor.Manager.Services.{
  query, queried, check_service, start_missing, start_service_command, info_command,
  event_info_command, is_fine, hold,
}
use sa_excutor.Manager.Response.{destroy_command}

ran-sent :
    (env : Env) (cmd : Str) (input : Bool) (sequence : ℕ) (m : Manager) (r : SaceResult)
    (status : SaceResultStatus) (type : SaceResultType)
    → (ran_command env cmd input sequence m r status type).0.sent ≡ m.sent
unfolding ran_command
ran-sent env cmd input sequence m r status type = ground arith

run-sent :
    (env : Env) (cmd : Str) (param : Option SaceCommandParams) (input : Bool) (m : Manager)
    → (run_command env cmd param input m).0.sent ≡ start_command env cmd param input m ∷ m.sent
unfolding run_command
run-sent env cmd param input m =
    let c = start_command env cmd param input m in
    let r = env.answer c in
    ran-sent env cmd input c.sequence (send env c m).0 r r.result_status r.result_type

-- The parameters that a caller gives to `runCommand` and `checkService` have no influence at all:
-- any two give the same outcome, the same commands to the sender included. `runCommand` sends one
-- command, with the manager's own parameters where the caller gives some, and with none where the
-- caller gives none.
pub params_ignored :
    (env : Env) (cmd name : Str) (service_cmd : Option Str) (p p' : SaceCommandParams)
    (input : Bool) (m : Manager)
    → (run_command env cmd (some p) input m ≡ run_command env cmd (some p') input m)
      × (check_service env name service_cmd (some p) m
          ≡ check_service env name service_cmd (some p') m)
      × ((c : SaceCommand) × ((run_command env cmd (some p) input m).0.sent ≡ c ∷ m.sent)
          × (c.command_params ≡ some m.cmd_param))
      × ((c : SaceCommand) × ((run_command env cmd none input m).0.sent ≡ c ∷ m.sent)
          × (c.command_params ≡ none))
unfolding run_command check_service
params_ignored env cmd name service_cmd p p' input m = (
  refl,
  same_service service_cmd,
  (start_command env cmd (some p) input m, run-sent env cmd (some p) input m, refl),
  (start_command env cmd none input m, run-sent env cmd none input m, refl),
)
  where
    same_service :
        (service_cmd : Option Str)
        → check_service env name service_cmd (some p) m
          ≡ check_service env name service_cmd (some p') m
    same_service none = refl
    same_service (some c) = refl

queried_failed_at :
    (env : Env) (name : Str) (sequence : ℕ) (r : SaceResult) (s : SaceResultStatus)
    (t : SaceResultType)
    → s ≢ SaceResultStatus.ok
    → queried env name sequence r s t
      ≡ done (failed_service env (result_to_error s) name name (sequence_to_label sequence 0))
unfolding queried
queried_failed_at env name sequence r SaceResultStatus.ok t h = absurd (h refl)
queried_failed_at env name sequence r SaceResultStatus.timeout t h = refl
queried_failed_at env name sequence r SaceResultStatus.fail t h = refl
queried_failed_at env name sequence r SaceResultStatus.secure t h = refl
queried_failed_at env name sequence r SaceResultStatus.exists t h = refl

failed-is_fine :
    (s : SaceResultStatus) → s ≢ SaceResultStatus.ok → is_fine (result_to_error s) ≡ false
unfolding result_to_error
failed-is_fine s h = ground arith

-- The object that a query gives for a command that the sender does not answer OK.
abbrev failed_query : Env → Str → SaceCommand → SaceServiceObj
failed_query env name c =
    failed_service env (result_to_error (env.answer c).result_status) name name
      (sequence_to_label c.sequence 0)

query_failed :
    (env : Env) (name : Str) (c : SaceCommand) (m : Manager)
    → (env.answer c).result_status ≢ SaceResultStatus.ok
    → query env name c m ≡ done ((send env c m).0, failed_query env name c)
unfolding query send
query_failed env name c m h =
    ap (λ (r : Run SaceServiceObj). r >>= λ o. done ((send env c m).0, o))
      (queried_failed_at env name c.sequence (env.answer c) _ _ h)

-- Where neither query is answered OK, `checkService` starts the service.
checked_missing :
    (env : Env) (name : Str) (cmd : Option Str) (param : Option SaceCommandParams) (m : Manager)
    → (env.answer (info_command env name)).result_status ≢ SaceResultStatus.ok
    → (env.answer (event_info_command env name)).result_status ≢ SaceResultStatus.ok
    → check_service env name cmd param m
      ≡ start_missing env name cmd param
          (failed_query env name (event_info_command env name))
          (send env (event_info_command env name) (send env (info_command env name) m).0).0
unfolding check_service
checked_missing env name cmd param m h k =
    rw
      (
        check_service,
        query_failed env name (info_command env name) m h,
        failed-is_fine _ h,
        query_failed env name (event_info_command env name) (send env (info_command env name) m).0
            k,
        failed-is_fine _ k,
      )
      refl

is_ok-false : (s : SaceResultStatus) → s ≢ SaceResultStatus.ok → is_ok s ≡ false
is_ok-false s h = ground arith

-- Where neither query of `checkService` is answered OK, a call with no command is undefined; and a
-- call whose START is not answered OK either holds no new service, and gives an object with the
-- error and the label of the event query, whatever the START was answered.
pub check_service_fails :
    (env : Env) (name cmd : Str) (param : Option SaceCommandParams) (m : Manager)
    → (env.answer (info_command env name)).result_status ≢ SaceResultStatus.ok
    → (env.answer (event_info_command env name)).result_status ≢ SaceResultStatus.ok
    → (env.answer (start_service_command env name cmd param m)).result_status ≢ SaceResultStatus.ok
    → (check_service env name none param m ≡ undefined)
      × ((m' : Manager) × (id : ℕ) × (o : SaceServiceObj) × (check_service env name
              (some cmd)
              param
              m
            ≡ done (m', id))
          × (m'.services ≡ m.services)
          × (find id m'.service_objs ≡ some o)
          × (o.error ≡ result_to_error (env.answer (event_info_command env name)).result_status)
          × (o.label ≡ sequence_to_label (event_info_command env name).sequence 0))
unfolding start_missing find
check_service_fails env name cmd param m h k l =
    let old = failed_query env name (event_info_command env name) in
    let m₂ = (send env (event_info_command env name) (send env (info_command env name) m).0).0 in
    let c = start_service_command env name cmd param m₂ in
    let (m', id) = keep_service old (send env c m₂).0 in
    (
      checked_missing env name none param m h k,
      (
        m',
        id,
        old,
        checked_missing env name (some cmd) param m h k
            ∙ ap
                (λ (b : Bool). done (
                  if b
                  then hold (live_service env (env.answer c).label name cmd) (send env c m₂).0
                  else keep_service old (send env c m₂).0))
                (is_ok-false _ l),
        refl,
        rw ==_refl refl,
        refl,
        refl,
      ),
    )

ran_timeout :
    (env : Env) (cmd : Str) (input : Bool) (sequence : ℕ) (m : Manager) (r : SaceResult)
    (status : SaceResultStatus) (type : SaceResultType)
    → status ≡ SaceResultStatus.timeout
    → ran_command env cmd input sequence m r status type
      ≡ keep_command (failed_command env ErrorCode.err_timeout cmd (sequence_to_label sequence 0)) m
unfolding ran_command result_to_error
ran_timeout env cmd input sequence m r status type e = rw e refl

-- The object of a command whose request timed out has no sender, but its error does not keep its
-- end from closing it: where the descriptor that nothing has set is not negative, destroying the
-- object is undefined.
pub timed_out_destroyed :
    (env : Env) (cmd : Str) (param : Option SaceCommandParams) (input : Bool) (m : Manager)
    (answer : SaceCommand → SaceResult)
    → (env.answer (start_command env cmd param input m)).result_status ≡ SaceResultStatus.timeout
    → is_negative env.unset ≡ false
    → (o : SaceCommandObj) × (find
          (run_command env cmd param input m).1
          (run_command env cmd param input m).0.command_objs
        ≡ some o)
      × (destroy_command answer o ≡ undefined)
unfolding run_command destroy_command find
timed_out_destroyed env cmd param input m answer timeout unset =
    let c = start_command env cmd param input m in
    let r = env.answer c in
    let o = failed_command env ErrorCode.err_timeout cmd (sequence_to_label c.sequence 0) in
    let kept : run_command env cmd param input m ≡ keep_command o (send env c m).0 =
      ran_timeout env cmd input c.sequence (send env c m).0 r r.result_status r.result_type
        timeout in
    (o, rw kept (rw (==_refl m.next) refl), rw unset refl)
