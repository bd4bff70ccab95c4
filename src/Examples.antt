-- ===== src/Examples.antt =====
-- Concrete runs of the models: the data that the examples share.
pub mod Daemon
pub mod Commands
pub mod Services
pub mod Parcels
pub mod Wire
pub mod Senders
pub mod Managers
mod Data
pub mod Events
pub mod Files
pub mod Inis
pub mod Readers
use sa_excutor.Common.{ℕ, Str, codes, List, [], ◌∷◌, Option, none, some, false, true}
use sa_excutor.Params.Decode.{Platform, Rlimit}
use sa_excutor.Types.{
  SaceClientIdentifier, Channel, SaceWriter, SaceCommand, new_command, SaceMessageHandlerType,
  SaceReaderMessage,
}

abbrev pub platform : Platform
platform = record { getpwnam = λ _. none; strtoul_needs_digits = false }

abbrev pub limit : Rlimit
limit = record { resource = 0; rlim_cur = 0; rlim_max = 0 }

abbrev pub client : SaceClientIdentifier
client = record { uid = 1000; pid = 77 }

abbrev pub writer : SaceWriter
writer = record { id = 77; channel = Channel.socket 5 }

abbrev pub reader : SaceWriter
reader = record { id = 78; channel = Channel.socket 6 }

-- A command by its type, its label and its text.
abbrev pub command : ℕ → ℕ → Str → SaceCommand
command type label text = record {
  len = 0;
  type = 0;
  sequence = 9;
  label = label;
  name = codes "svc";
  command = text;
  command_params = none;
  extra = [];
  cmd_type = type;
  cmd_flags = 0;
}

abbrev pub message : SaceMessageHandlerType → SaceCommand → SaceReaderMessage
message handler cmd = record { handler = handler; cmd = cmd; writer = some writer; client = client }
