-- ===== src/Types/Message.antt =====
-- saced/SaceMessage.h: what the readers post and the executors take.
use sa_excutor.Common.{ℕ, Option}
use sa_excutor.Types.Client.{SaceClientIdentifier, SaceWriter}
use sa_excutor.Types.Command.{SaceCommand}

pub data SaceMessageHandlerType : Type 0 where
  unknown normal service event : SaceMessageHandlerType

-- `SaceReaderMessage`; a null writer is `none`.
pub record SaceReaderMessage : Type 0 where
  pub handler : SaceMessageHandlerType
  pub cmd : SaceCommand
  pub writer : Option SaceWriter
  pub client : SaceClientIdentifier

pub data SaceMessageType : Type 0 where
  normal event : SaceMessageType

-- `SaceMessageHeader`, with a number that tells messages apart.
pub record SaceMessageHeader : Type 0 where
  pub handler : SaceMessageHandlerType
  pub type : SaceMessageType
  pub id : ℕ
