-- ===== src/Reader/Secure.antt =====
-- The messages that the socket reader (saced/SaceReader.cpp) posts.
use sa_excutor.Common.{ℕ, ◌≡◌, refl, true, false, ◌⊎◌, List, [], none, ltb, leb, arith}
use sa_excutor.Types.{SaceMessageHandlerType}
use sa_excutor.Reader.{
  ClientSocket, Effect, posted, refused, closed, secured_by_uid_pid, type_cmd_to_msg,
  destroy_command, take_slot, accept_client,
}

-- A message of the reader: the DESTROY of its client, for the normal executor, or a command for
-- the executor of its type from a client whose uid is 0 or 1000.
abbrev pub IsAllowed : Effect → Type 0
IsAllowed (posted msg) =
    ((msg.cmd ≡ destroy_command msg.client) × (msg.handler ≡ SaceMessageHandlerType.normal))
    ⊎ ((msg.handler ≡ type_cmd_to_msg msg.cmd.type)
        × ((msg.client.uid ≡ 0) ⊎ (msg.client.uid ≡ 1000)))
IsAllowed (refused w r) = Unit
IsAllowed (closed fd) = Unit

pub uid-cases : (uid pid : ℕ) → secured_by_uid_pid uid pid ≡ true → (uid ≡ 0) ⊎ (uid ≡ 1000)
unfolding secured_by_uid_pid
uid-cases uid pid h = ground arith

-- All slots taken, and the variable that the loop does not set happens to be below 32: the new
-- connection is neither kept nor closed.
pub connection_leaked :
    (index fd : ℕ) (new : ClientSocket) (slots : List ClientSocket)
    → take_slot new slots ≡ none
    → ltb index 32 ≡ true
    → accept_client index fd new slots ≡ (slots, [])
unfolding accept_client
connection_leaked index fd new slots full low =
    let spared : leb 32 index ≡ false = ground arith in rw (accept_client, full, spared) refl
