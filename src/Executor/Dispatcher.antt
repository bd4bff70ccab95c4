-- ===== src/Executor/Dispatcher.antt =====
-- SaceCommandDispatcher (saced/SaceCommandDispatcher.cpp): each message goes to the executors of its
-- handler type. An executor is here its type, its `mExit` and its queue.
use sa_excutor.Common.{
  append_nil, ℕ, ◌≡◌, refl, ap, Bool, true, false, not, ◌||◌, List, [], ◌∷◌, ◌++◌, nat_eq,
  if◌then◌else◌,
}
use sa_excutor.Types.Message.{SaceMessageHandlerType, SaceMessageHeader}
use SaceMessageHandlerType.{unknown, normal, service, event}

pub record SaceExcutor : Type 0 where
  pub type : SaceMessageHandlerType
  pub exit : Bool
  pub queue : List SaceMessageHeader

abbrev handler_code : SaceMessageHandlerType → ℕ
handler_code unknown = 0
handler_code normal = 1
handler_code service = 2
handler_code event = 3

abbrev same_handler : SaceMessageHandlerType → SaceMessageHandlerType → Bool
same_handler a b = nat_eq (handler_code a) (handler_code b)

unfoldable pub send_command_message : SaceMessageHeader → SaceExcutor → SaceExcutor
send_command_message msg e = if e.exit then e else record e { queue = e.queue ++ msg ∷ [] }

unfoldable pub excute : SaceMessageHeader → SaceExcutor → SaceExcutor × Bool
unfolding send_command_message
excute msg e =
    if same_handler msg.handler e.type then (send_command_message msg e, true) else (e, false)

-- The loop of `handleMessage`: the executors afterwards, and whether one took the message.
unfoldable pub offer : SaceMessageHeader → List SaceExcutor → List SaceExcutor × Bool
unfolding excute
offer msg [] = ([], false)
offer msg (e ∷ es) =
    let here = excute msg e in let rest = offer msg es in (here.0 ∷ rest.0, here.1 || rest.1)

-- The executors, and whether `handleDefaultMessage` is called.
unfoldable pub handle_message : SaceMessageHeader → List SaceExcutor → List SaceExcutor × Bool
unfolding offer
handle_message msg es = let r = offer msg es in (r.0, not r.1)

-- The executors that `start` makes, in its order.
abbrev pub excutors :
    List SaceMessageHeader → List SaceMessageHeader → List SaceMessageHeader → List SaceExcutor
excutors services normals events =
    record { type = service; exit = false; queue = services }
    ∷ (record { type = normal; exit = false; queue = normals }
        ∷ (record { type = event; exit = false; queue = events } ∷ []))

-- The messages that an executor of a type would get.
abbrev pub gets : SaceMessageHandlerType → SaceMessageHeader → List SaceMessageHeader
gets h msg = if same_handler msg.handler h then msg ∷ [] else []

-- With the three executors that `start` makes, none of them to exit: a message is put at the end
-- of the one queue of its handler type, the other queues stay as they are, and the default handler
-- is called exactly for the messages of the unknown type.
pub routed :
    (msg : SaceMessageHeader) (services normals events : List SaceMessageHeader)
    → handle_message msg (excutors services normals events) ≡ (
      excutors
          (services ++ gets service msg)
          (normals ++ gets normal msg)
          (events ++ gets event msg),
      same_handler msg.handler unknown,
    )
unfolding handle_message offer excute send_command_message
routed msg services normals events = by_type msg.handler refl
  where
    by_type :
        (h : SaceMessageHandlerType)
        → msg.handler ≡ h
        → handle_message msg (excutors services normals events) ≡ (
          excutors
              (services ++ gets service msg)
              (normals ++ gets normal msg)
              (events ++ gets event msg),
          same_handler msg.handler unknown,
        )
    by_type unknown e =
        rw (ap handler_code e, append_nil services, append_nil normals, append_nil events) refl
    by_type normal e = rw (ap handler_code e, append_nil services, append_nil events) refl
    by_type service e = rw (ap handler_code e, append_nil normals, append_nil events) refl
    by_type event e = rw (ap handler_code e, append_nil services, append_nil normals) refl
