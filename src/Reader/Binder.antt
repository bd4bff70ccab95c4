-- ===== src/Reader/Binder.antt =====
-- The binder reader (saced/SaceReader.cpp): SaceManagerService and its death recipient. A call has the
-- uid and the pid of the caller; a listener is the number of its binder.
use sa_excutor.Common.{ℕ, Bool, true, false, none, some, List, [], ◌∷◌, Run, done, undefined, ◌>>=◌}
use sa_excutor.Common.Map.{Map, find, insert, erase}
use sa_excutor.Types.{
  SaceClientIdentifier, Client_eq, Channel, SaceCommand, SaceReaderMessage, SaceMessageHandlerType,
}
use sa_excutor.Reader.{secured_by_uid_pid, type_cmd_to_msg, destroy_command}

-- A death recipient is the client that it destroys. The last message comes first.
pub record SaceManagerService : Type 0 where
  pub exit : Bool
  pub listeners : Map SaceClientIdentifier ℕ
  pub death_recipients : Map SaceClientIdentifier SaceClientIdentifier
  pub posted : List SaceReaderMessage

abbrev post : SaceReaderMessage → SaceManagerService → SaceManagerService
post msg s = record s { posted = msg ∷ s.posted }

abbrev forget : SaceClientIdentifier → SaceManagerService → SaceManagerService
forget client s = record s {
  listeners = erase client s.listeners;
  death_recipients = erase client s.death_recipients;
}

-- `destroyClient`, for the client of a binder that died.
unfoldable pub destroy_client : SaceClientIdentifier → SaceManagerService → SaceManagerService
unfolding erase destroy_command
destroy_client client s = forget client (
    post
      (record {
        handler = SaceMessageHandlerType.normal;
        cmd = destroy_command client;
        writer = none;
        client = client;
      })
      s)

-- The listener of the caller is read without a test that there is one. The result goes to an object
-- that the call makes, and not to the one of the caller.
unfoldable pub send_command :
    SaceClientIdentifier → SaceCommand → SaceManagerService → Run SaceManagerService
unfolding find secured_by_uid_pid type_cmd_to_msg
send_command client cmd s = elim s.exit [
  | true ↦ done s
  | false ↦ elim (secured_by_uid_pid client.uid client.pid) [
    | false ↦ done s
    | true ↦ elim (find client s.listeners) [
      | none ↦ undefined
      | some listener ↦ done (
          post
            (record {
              handler = type_cmd_to_msg cmd.type;
              cmd = cmd;
              writer = some (record { id = client.pid; channel = Channel.binder listener });
              client = client;
            })
            s)
    ]
  ]
]

unfoldable pub unregister_listener : SaceClientIdentifier → SaceManagerService → SaceManagerService
unfolding erase
unregister_listener client s = elim s.exit [ true ↦ s | false ↦ forget client s ]

-- A client that registers again keeps its first listener.
unfoldable pub register_listener :
    SaceClientIdentifier → ℕ → SaceManagerService → SaceManagerService
unfolding insert
register_listener client listener s = elim s.exit [
  | true ↦ s
  | false ↦ record s {
    listeners = insert client listener s.listeners;
    death_recipients = insert client client s.death_recipients;
  }
]

pub data Call : Type 0 where
  send : SaceClientIdentifier → SaceCommand → Call
  register : SaceClientIdentifier → ℕ → Call
  unregister died : SaceClientIdentifier → Call
  stop : Call

unfoldable pub call : Call → SaceManagerService → Run SaceManagerService
unfolding send_command register_listener unregister_listener destroy_client
call (send client cmd) s = send_command client cmd s
call (register client listener) s = done (register_listener client listener s)
call (unregister client) s = done (unregister_listener client s)
call (died client) s = done (destroy_client client s)
call stop s = done (record s { exit = true })

unfoldable pub calls : List Call → SaceManagerService → Run SaceManagerService
unfolding call
calls [] s = done s
calls (c ∷ cs) s = call c s >>= calls cs
