-- ===== src/Reader.antt =====
-- The readers (saced/SaceReader.cpp). The socket reader: the client slots, the security check, and the messages
-- that are posted. The parcel and its two readers belong to the platform and to SaceTypes.cpp: they
-- are the arguments `header_len`, `header_size` and `decode`.
pub mod Secure
pub mod Binder
pub mod Calls
use sa_excutor.Common.{
  ℕ, ◌+◌, Bool, true, false, ◌||◌, Str, codes, List, [], ◌∷◌, ◌++◌, Option, none, some, nat_eq, ltb,
  leb, length, if◌then◌else◌,
}
use sa_excutor.Params.Text.{to_string}
use sa_excutor.Types.{
  minus_one, SaceClientIdentifier, Channel, SaceWriter, SaceCommand, new_command, SaceResult,
  new_result, SaceReaderMessage, SaceMessageHandlerType, type_normal, type_service, type_event,
  normal_cmd_destroy,
}
use sa_excutor.Types.Command.{SaceResultStatus, SaceResultType}

unfoldable pub type_cmd_to_msg : ℕ → SaceMessageHandlerType
type_cmd_to_msg type =
    if nat_eq type type_normal
    then SaceMessageHandlerType.normal
    else if nat_eq type type_service
    then SaceMessageHandlerType.service
    else if nat_eq type type_event
    then SaceMessageHandlerType.event
    else SaceMessageHandlerType.unknown

abbrev pub aid_root : ℕ
aid_root = 0

abbrev pub aid_system : ℕ
aid_system = 1000

unfoldable pub secured_by_uid_pid : ℕ → ℕ → Bool
secured_by_uid_pid uid pid = nat_eq uid aid_system || nat_eq uid aid_root

abbrev pub result_by_secure : SaceResult
result_by_secure = record new_result {
  result_type = SaceResultType.nothing;
  result_status = SaceResultStatus.secure;
  result_extra = [];
  result_fd = some minus_one;
}

abbrev pub result_by_failure : SaceResult
result_by_failure = record new_result {
  result_type = SaceResultType.nothing;
  result_status = SaceResultStatus.fail;
  result_extra = [];
  result_fd = some minus_one;
}

-- `ClientSocket`; a negative descriptor is `none`.
pub record ClientSocket : Type 0 where
  pub fd : Option ℕ
  pub client : SaceClientIdentifier
  pub writer : Option SaceWriter

pub data Effect : Type 0 where
  posted : SaceReaderMessage → Effect
  refused : Option SaceWriter → SaceResult → Effect
  closed : ℕ → Effect

-- A command that was received: it is posted for a client that may send commands, and answered
-- SECURE for another.
unfoldable pub handle_socket_msg : ClientSocket → SaceCommand → Effect
unfolding secured_by_uid_pid type_cmd_to_msg
handle_socket_msg c cmd =
    if secured_by_uid_pid c.client.uid c.client.pid
    then posted (record {
      handler = type_cmd_to_msg cmd.type;
      cmd = cmd;
      writer = c.writer;
      client = c.client;
    })
    else refused c.writer result_by_secure

-- The DESTROY of a client that is gone.
unfoldable pub destroy_command : SaceClientIdentifier → SaceCommand
unfolding to_string
destroy_command client = record (new_command 0 []) {
  sequence = 0;
  cmd_type = normal_cmd_destroy;
  name = to_string client.pid ++ codes ":0";
}

unfoldable pub handle_socket_close : ClientSocket → Effect
unfolding destroy_command
handle_socket_close c = posted (record {
  handler = SaceMessageHandlerType.normal;
  cmd = destroy_command c.client;
  writer = c.writer;
  client = c.client;
})

-- A connection takes the first free slot; `none` means that there is none.
unfoldable pub take_slot : ClientSocket → List ClientSocket → Option (List ClientSocket)
take_slot new [] = none
take_slot new (c ∷ cs) = elim c.fd [
  | none ↦ some (new ∷ cs)
  | some _ ↦ elim (take_slot new cs) [ none ↦ none | some cs' ↦ some (c ∷ cs') ]
]

abbrev pub max_client_num : ℕ
max_client_num = 32

-- After `accept`: `index` is what the outer variable `i` holds, which the loop does not set, since
-- it declares its own. The descriptor is closed by that variable, whether it got a slot or not.
unfoldable pub accept_client :
    ℕ → ℕ → ClientSocket → List ClientSocket → List ClientSocket × List Effect
unfolding take_slot
accept_client index fd new slots = (
  elim (take_slot new slots) [ none ↦ slots | some slots' ↦ slots' ],
  if leb max_client_num index then closed fd ∷ [] else [],
)

-- What `select` and `read` say of a slot: not ready, at the end or failed, or some bytes.
pub data Ready : Type 0 where
  quiet over : Ready
  bytes : List ℕ → Ready

module _ (header_size : ℕ) (header_len : List ℕ → ℕ) (decode : List ℕ → SaceCommand) where
  -- The bytes of one read: too short for a header, shorter than the header says, or a command.
  unfoldable pub receive : ClientSocket → List ℕ → List Effect
  unfolding handle_socket_msg
  receive c text =
      if ltb (length text) header_size
      then []
      else if ltb (length text) (header_len text)
      then []
      else handle_socket_msg c (decode text) ∷ []

  -- One round of the loop over the slots: the slot afterwards and the effects.
  unfoldable pub serve_fd : Option ℕ → Ready → ClientSocket → ClientSocket × List Effect
  unfolding receive handle_socket_close
  serve_fd none ready c = (c, [])
  serve_fd (some fd) quiet c = (c, [])
  serve_fd (some fd) over c =
      let gone : ClientSocket = record c { fd = none } in
      (gone, closed fd ∷ handle_socket_close gone ∷ [])
  serve_fd (some fd) (bytes text) c = (c, receive c text)

  unfoldable pub serve_slot : Ready → ClientSocket → ClientSocket × List Effect
  unfolding serve_fd
  serve_slot ready c = serve_fd c.fd ready c

  -- The loop; `ready` answers by position.
  unfoldable pub serve : (ℕ → Ready) → ℕ → List ClientSocket → List ClientSocket × List Effect
  unfolding serve_slot
  serve ready i [] = ([], [])
  serve ready i (c ∷ cs) =
      let (c', effects) = serve_slot (ready i) c in
      let (cs', later) = serve ready (i + 1) cs in (c' ∷ cs', effects ++ later)
