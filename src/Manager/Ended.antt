-- ===== src/Manager/Ended.antt =====
-- What a client learns when a service that it holds ends.
use sa_excutor.Common.{ℕ, ◌≡◌, refl, true, ◌∷◌, none, some, ℕ_eq, length, ==_refl, arith}
use sa_excutor.Common.Map.{find, erase, update, find-erase_self, find-update}
use sa_excutor.Types.{SaceCommand, SaceResult, SaceStatusResponse}
use sa_excutor.Types.Command.{
  SaceResultStatus, SaceResultType, SaceResponseType, SaceResponseStatus,
}
use sa_excutor.Service.Info.{of_image}
use sa_excutor.Client.{
  ErrorCode, Outcome, returned, unsupported, remote, invalid, SaceServiceObj, response_to_error,
  stop, guarded_by,
}
use sa_excutor.Manager.{Manager, Env, Notice, live_service}
use sa_excutor.Manager.Reach.{Reachable, Reachable-IsValid}
use sa_excutor.Manager.Services.{info_size}
use sa_excutor.Manager.Response.{on_response, on_response_of, service_response, service_ended}

-- A call that throws.
abbrev pub Throws : {A : Type 0} → Outcome A → Type 0
Throws (returned a) = ⊥
Throws unsupported = Unit
Throws remote = Unit
Throws invalid = Unit

stop-Throws :
    (answer : SaceCommand → SaceResult) (o : SaceServiceObj) (status : SaceResponseStatus)
    → o.error ≡ response_to_error status
    → Throws (stop answer o)
unfolding stop guarded_by response_to_error
stop-Throws answer o SaceResponseStatus.exit e = rw (stop, e) tt
stop-Throws answer o SaceResponseStatus.signal e = rw (stop, e) tt
stop-Throws answer o SaceResponseStatus.user e = rw (stop, e) tt
stop-Throws answer o SaceResponseStatus.unknown e = rw (stop, e) tt

-- The state after the response, where the map holds the label.
ended_state :
    (label id : ℕ) (code : ErrorCode) (o : SaceServiceObj) (m : Manager)
    → find label m.services ≡ some id
    → find id m.service_objs ≡ some o
    → service_response label code m ≡ service_ended label code id o m
unfolding service_response
ended_state label id code o m held at = rw (service_response, held, at) refl

ended_services :
    (label id : ℕ) (code : ErrorCode) (o : SaceServiceObj) (m : Manager)
    → (service_ended label code id o m).services ≡ erase label m.services
unfolding service_ended
ended_services label id code o m = ground arith

ended_objs :
    (label id : ℕ) (code : ErrorCode) (o : SaceServiceObj) (m : Manager)
    → (service_ended label code id o m).service_objs
      ≡ update id (λ obj. record obj { error = code }) m.service_objs
unfolding service_ended
ended_objs label id code o m = ground arith

ended_notices :
    (label id : ℕ) (code : ErrorCode) (o : SaceServiceObj) (m : Manager)
    → m.has_callback ≡ true
    → (service_ended label code id o m).notices
      ≡ Notice.service id label o.name o.command ∷ m.notices
unfolding service_ended
ended_notices label id code o m h = ground arith

-- When a response of type SERVICE comes for a label that a reachable manager with a callback holds,
-- the object under that label takes the error of the response, the label leaves the map, the
-- callback gets the object with its label and texts, and from then on `stop` on the object throws,
-- whatever the sender would answer.
pub service_told :
    {cap_size : ℕ} {m : Manager} (label id : ℕ) (r : SaceStatusResponse)
    → Reachable cap_size m
    → find label m.services ≡ some id
    → m.has_callback ≡ true
    → r.type ≡ SaceResponseType.service
    → r.label ≡ label
    → (o : SaceServiceObj) × (find id (on_response r m).service_objs ≡ some o)
      × (o.error ≡ response_to_error r.status)
      × (find label (on_response r m).services ≡ none)
      × ((on_response r m).notices ≡ Notice.service id label o.name o.command ∷ m.notices)
      × ((answer : SaceCommand → SaceResult) → Throws (stop answer o))
unfolding on_response on_response_of
service_told {m} label id r reach held callback typed labelled =
    let (o, at, same) = (Reachable-IsValid reach).held_services.place label id held in
    let code = response_to_error r.status in
    let after : on_response r m ≡ service_ended label code id o m =
      rw (on_response, typed, labelled) (ended_state label id code o m held at) in
    (
      record o { error = code },
      rw (after, ended_objs, find-update, at, ==_refl id) refl,
      refl,
      rw (after, ended_services) (find-erase_self label m.services),
      rw after (ended_notices label id code o m callback),
      λ answer. stop-Throws answer (record o { error = code }) r.status refl,
    )

-- The object of a service that the daemon describes.
abbrev object_of : Env → SaceResult → SaceServiceObj
object_of env r =
    live_service env (of_image r.result_extra).label (of_image r.result_extra).name
      (of_image r.result_extra).cmd

abbrev Describes : SaceResult → Type 0
Describes r =
    (r.result_status ≡ SaceResultStatus.ok)
    × (r.result_type ≡ SaceResultType.extra)
    × (length r.result_extra ≡ info_size)
