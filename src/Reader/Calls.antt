-- ===== src/Reader/Calls.antt =====
-- The messages that the binder reader (saced/SaceReader.cpp) posts.
use sa_excutor.Common.{
  refl, List, [], ◌∷◌, All, Run, done, hangs, undefined, ◌>>=◌, inl, inr, Bool-cases, Option-cases,
}
use sa_excutor.Common.Map.{find}
use sa_excutor.Types.{SaceClientIdentifier, Client_eq, SaceCommand}
use sa_excutor.Reader.{posted, secured_by_uid_pid}
use sa_excutor.Reader.Secure.{IsAllowed, uid-cases}
use sa_excutor.Reader.Binder.{
  SaceManagerService, destroy_client, send_command, unregister_listener, register_listener, Call,
  send, register, unregister, died, stop, call, calls,
}

abbrev pub IsAllowedService : SaceManagerService → Type 0
IsAllowedService s = All (λ m. IsAllowed (posted m)) s.posted

abbrev pub WhenDone : (SaceManagerService → Type 0) → Run SaceManagerService → Type 0
WhenDone P (done s) = P s
WhenDone P hangs = Unit
WhenDone P undefined = Unit

send_command-IsAllowed :
    (client : SaceClientIdentifier) (cmd : SaceCommand) (s : SaceManagerService)
    → IsAllowedService s
    → WhenDone IsAllowedService (send_command client cmd s)
unfolding send_command
send_command-IsAllowed client cmd s h = elim (Bool-cases s.exit) [
  | inl e ↦ rw (send_command, e) h
  | inr e ↦ elim (Bool-cases (secured_by_uid_pid client.uid client.pid)) [
    | inr insecure ↦ rw (send_command, e, insecure) h
    | inl secure ↦ elim (Option-cases (find client s.listeners)) [
      | inl unknown ↦ rw (send_command, e, secure, unknown) tt
      | inr (listener, known) ↦
          rw (send_command, e, secure, known)
            (inr (refl, uid-cases client.uid client.pid secure), h)
    ]
  ]
]

call-IsAllowed :
    (c : Call) (s : SaceManagerService) → IsAllowedService s → WhenDone IsAllowedService (call c s)
unfolding call register_listener unregister_listener destroy_client
call-IsAllowed (send client cmd) s h = send_command-IsAllowed client cmd s h
call-IsAllowed (register client listener) s h = elim (Bool-cases s.exit) [
  | inl e ↦ rw (register_listener, e) h
  | inr e ↦ rw (register_listener, e) h
]
call-IsAllowed (unregister client) s h = elim (Bool-cases s.exit) [
  | inl e ↦ rw (unregister_listener, e) h
  | inr e ↦ rw (unregister_listener, e) h
]
call-IsAllowed (died client) s h = (inl (refl, refl), h)
call-IsAllowed stop s h = h

next-IsAllowed :
    (cs : List Call) (r : Run SaceManagerService)
    → ((s : SaceManagerService) → IsAllowedService s → WhenDone IsAllowedService (calls cs s))
    → WhenDone IsAllowedService r
    → WhenDone IsAllowedService (r >>= calls cs)
next-IsAllowed cs (done s) rest h = rest s h
next-IsAllowed cs hangs rest h = tt
next-IsAllowed cs undefined rest h = tt

-- In any sequence of calls of clients and deaths of theirs, each message that the binder reader posts
-- is the DESTROY of a client that died, for the normal executor, or a command of a client with the
-- uid 0 or 1000, for the executor of the command's type.
pub calls-IsAllowed :
    (cs : List Call) (s : SaceManagerService)
    → IsAllowedService s
    → WhenDone IsAllowedService (calls cs s)
unfolding calls
calls-IsAllowed [] s h = h
calls-IsAllowed (c ∷ cs) s h =
    next-IsAllowed cs (call c s) (calls-IsAllowed cs) (call-IsAllowed c s h)
