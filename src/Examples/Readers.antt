-- ===== src/Examples/Readers.antt =====
-- Runs of the socket reader.
use sa_excutor.Common.{ℕ, List, [], ◌∷◌, some, nat_eq, if◌then◌else◌}
use sa_excutor.Types.{SaceCommand}
use sa_excutor.Reader.{ClientSocket, Ready, over, bytes}
use sa_excutor.Examples.{client, writer, command}

abbrev slot : ℕ → ClientSocket
slot fd = record { fd = some fd; client = client; writer = some writer }

abbrev ready : ℕ → Ready
ready i = if nat_eq i 0 then over else bytes (1 ∷ 2 ∷ 3 ∷ [])

abbrev decode : List ℕ → SaceCommand
decode _ = command 1 5 []
