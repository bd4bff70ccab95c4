-- ===== src/Manager/Response.antt =====
-- SaceManager::onResponse, setCallback, and the end of a command object.
use sa_excutor.Common.{ℕ, Bool, ◌∷◌, none, some, ℕ_eq, if◌then◌else◌, Run, done, undefined}
use sa_excutor.Common.Map.{find, erase, update}
use sa_excutor.Types.{SaceCommand, SaceResult, SaceStatusResponse, is_negative}
use sa_excutor.Types.Command.{SaceResponseType}
use sa_excutor.Client.{
  ErrorCode, response_to_error, SaceCommandObj, SaceServiceObj, is_closed, close_object,
}
use sa_excutor.Manager.{Manager, Notice}

unfoldable pub set_callback : Bool → Manager → Manager
set_callback callback m = record m { has_callback = callback }

abbrev notify : Notice → Manager → Manager
notify n m = if m.has_callback then record m { notices = n ∷ m.notices } else m

-- The object that the map holds under the label of a response takes its error, leaves the map, and
-- is handed to the callback.
unfoldable pub service_ended : ℕ → ErrorCode → ℕ → SaceServiceObj → Manager → Manager
service_ended label code id o m = notify (Notice.service id label o.name o.command) (record m {
  services = erase label m.services;
  service_objs = update id (λ obj. record obj { error = code }) m.service_objs;
})

unfoldable pub command_ended : ℕ → ErrorCode → ℕ → SaceCommandObj → Manager → Manager
command_ended label code id o m = notify (Notice.command id label o.cmd) (record m {
  commands = erase label m.commands;
  command_objs = update id (λ obj. record obj { error = code }) m.command_objs;
})

unfoldable pub service_response : ℕ → ErrorCode → Manager → Manager
unfolding service_ended
service_response label code m = elim (find label m.services) [
  | none ↦ m
  | some id ↦ elim (find id m.service_objs) [ none ↦ m | some o ↦ service_ended label code id o m ]
]

unfoldable pub command_response : ℕ → ErrorCode → Manager → Manager
unfolding command_ended
command_response label code m = elim (find label m.commands) [
  | none ↦ m
  | some id ↦ elim (find id m.command_objs) [ none ↦ m | some o ↦ command_ended label code id o m ]
]

-- A place that the map names and the store lacks does not arise (Manager/Valid).
unfoldable pub on_response_of : SaceResponseType → ℕ → ErrorCode → Manager → Manager
unfolding service_response command_response
on_response_of SaceResponseType.service label code m = service_response label code m
on_response_of SaceResponseType.normal label code m = command_response label code m

unfoldable pub on_response : SaceStatusResponse → Manager → Manager
unfolding on_response_of response_to_error
on_response r m = on_response_of r.type r.label (response_to_error r.status) m

-- `~SaceCommandObj`, which closes. An object that was made for an error has no sender, so a close
-- that gets as far as its request follows a null pointer.
unfoldable pub destroy_command : (SaceCommand → SaceResult) → SaceCommandObj → Run SaceCommandObj
unfolding close_object
destroy_command answer o =
    if o.has_callback
    then done (close_object answer o)
    else if is_closed o.error
    then done o
    else if is_negative o.fd
    then done o
    else undefined
