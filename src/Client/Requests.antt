-- ===== src/Client/Requests.antt =====
-- The requests of libsace/SaceObj.cpp: closing a command, asking for a service's state.
use sa_excutor.Common.{
  ◌≡◌, refl, sym, ap, ◌∙◌, Bool, true, inl, inr, str_eq, if◌then◌else◌, Bool-cases, Run, done,
  hangs, undefined,
}
use sa_excutor.Types.{
  SaceWriter, SaceCommand, SaceResult, service_cmd_pause, service_cmd_restart, is_negative,
}
use sa_excutor.Types.Command.{SaceResultStatus}
use sa_excutor.Service as Services
use sa_excutor.Service.Handle.{first_result, dispatch, handle_service_info}
use sa_excutor.Service.Info.{of_image}
use sa_excutor.Client.{
  err_ok, err_exit_user, returned, remote, invalid, SaceCommandObj, close_open, is_closed,
  close_object, result_to_error, SaceServiceObj, state_command, request_state, get_state,
  guarded_by, guarded, with_error, is_ok, stop_request, request, stop, pause, restart,
}

close_object-negative :
    (answer : SaceCommand → SaceResult) (o : SaceCommandObj)
    → is_negative o.fd ≡ true
    → close_object answer o ≡ o
unfolding close_object
close_object-negative answer o h = elim (Bool-cases (is_closed o.error)) [
  | inl e ↦ simp (close_object, e) refl
  | inr e ↦ simp (close_object, e, h) refl
]

close_object-closed :
    (answer : SaceCommand → SaceResult) (o : SaceCommandObj)
    → is_closed o.error ≡ true
    → close_object answer o ≡ o
unfolding close_object
close_object-closed answer o h = simp (close_object, h) refl

-- Closing a command object again changes nothing and sends nothing, whatever the first and the
-- second request are answered, and in every state of the object.
pub close_again :
    (answer answer' : SaceCommand → SaceResult) (o : SaceCommandObj)
    → close_object answer' (close_object answer o) ≡ close_object answer o
unfolding close_open close_object
close_again answer answer' o = elim (Bool-cases (is_closed o.error)) [
  | inl e ↦ rw (close_object-closed answer o e) (close_object-closed answer' o e)
  | inr e ↦ elim (Bool-cases (is_negative o.fd)) [
    | inl n ↦ rw (close_object-negative answer o n) (close_object-negative answer' o n)
    | inr n ↦
        let sends : close_object answer o ≡ close_open answer o = simp (close_object, e, n) refl in
        rw sends (close_object-negative answer' (close_open answer o) refl)
  ]
]

-- The daemon answers FAIL to a request by GET_BY_LABEL, and is not changed.
get_by_label-dispatch :
    (env : Services.Env) (writer : SaceWriter) (daemon : Services.State) (o : SaceServiceObj)
    → dispatch env (state_command o) writer daemon ≡ done (daemon, first_result (state_command o))
unfolding dispatch handle_service_info str_eq
get_by_label-dispatch env writer daemon o = refl

done-inj : (a b : Services.State × SaceResult) → Run.done a ≡ done b → a ≡ b
done-inj a b e = ap (λ r. elim r [ done c ↦ c | hangs ↦ a | undefined ↦ a ]) e

guarded-invalid :
    (body : SaceServiceObj → SaceServiceObj × Bool) (o : SaceServiceObj)
    → o.error ≡ err_exit_user
    → guarded body o ≡ invalid
unfolding guarded
guarded-invalid body o h = ap (guarded_by body o) h

module _ (env : Services.Env) (writer : SaceWriter) (daemon daemon' : Services.State)
    (r : SaceResult) (answer : SaceCommand → SaceResult) (o : SaceServiceObj)
    (no_error : o.error ≡ err_ok)
    (answers : dispatch env (state_command o) writer daemon ≡ done (daemon', r))
    (passed_on : answer (state_command o) ≡ r) where
  fails : (answer (state_command o)).result_status ≡ SaceResultStatus.fail
  fails =
      ap (λ r. r.result_status) passed_on
      ∙ ap (λ p. p.1.result_status)
          (done-inj (daemon', r) (daemon, first_result (state_command o))
            (sym answers ∙ get_by_label-dispatch env writer daemon o))

  abbrev after : SaceServiceObj
  after = (request_state answer o).0

  after-error : after.error ≡ err_exit_user
  unfolding request_state result_to_error
  after-error = ap result_to_error fails

  got : get_state answer o ≡ returned (after, 5)
  unfolding get_state request_state
  got =
      ap
        (λ e.
          with_error e (returned (request_state answer o)) remote invalid
            (returned (request_state answer o)))
        no_error
      ∙ ap
          (λ st. returned (
            after,
            if is_ok st then (of_image (answer (state_command o)).result_extra).state else 5,
          ))
          fails

  -- A service object without an error asks for its state, and the service executor's answer comes
  -- back: whatever services there are, the state is SERVICE_DIED_UNKNOWN, and from then on `stop`,
  -- `pause` and `restart` throw InvalidOperation, whatever would be answered.
  pub state_lost :
      (get_state answer o ≡ returned (after, 5))
      × ((later : SaceCommand → SaceResult)
          → (stop later after ≡ invalid)
            × (pause later after ≡ invalid)
            × (restart later after ≡ invalid))
  unfolding stop pause restart
  state_lost = (
    got,
    λ later. (
      guarded-invalid (stop_request later) after after-error,
      guarded-invalid (request later service_cmd_pause) after after-error,
      guarded-invalid (request later service_cmd_restart) after after-error,
    ),
  )
