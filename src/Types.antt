-- ===== src/Types.antt =====
-- The data that the parts of the program exchange.
pub mod Label
pub mod Client
pub mod Command
pub mod Message
unfoldable pub use Label.{sequence_to_label, label_to_sequence}
pub use Label.*
unfoldable pub use Client.{client_eq, same_writer}
pub use Client.*
unfoldable pub use Command.{new_command, new_result, new_response}
pub use Command.*
pub use Message.{SaceReaderMessage, SaceMessageHandlerType}
