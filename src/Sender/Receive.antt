-- ===== src/Sender/Receive.antt =====
-- The receiving thread of the sender, for one message from the socket (libsace/SaceSender.cpp).
use sa_excutor.Common.{ℕ, Option, some, nat_eq, ltb, if◌then◌else◌, Run, done, ◌>>=◌}
use sa_excutor.Common.Map.{or_else}
use sa_excutor.Types.{SaceResult, minus_one}
use sa_excutor.Wire.Laws.{ParcelApi}
use sa_excutor.Wire.Result.{
  base_normal, base_response, SaceResultHeader, read_header, read_result, read_response,
}
use sa_excutor.Sender.{Sender, handle_result, handle_response}

-- `SaceResultHeader::parcelSize`.
abbrev pub result_header_size : ℕ
result_header_size = 13

-- The descriptor of a result is the one that came with the message, whatever its bytes say.
abbrev pub with_rights : Option ℕ → SaceResult → SaceResult
with_rights rights r = record r { result_fd = some (or_else minus_one rights) }

module _ (api : ParcelApi) where
  unfoldable pub receive_result : Option ℕ → api.Parcel → Sender → Run Sender
  unfolding handle_result
  receive_result rights p s = do
    ((header, r), q) ← read_result api p
    done (handle_result (with_rights rights r) s)

  unfoldable pub receive_response : api.Parcel → Sender → Run Sender
  unfolding handle_response
  receive_response p s = do ((header, r), q) ← read_response api p; done (handle_response r s)

  -- A message that is shorter than its header says, or of another type, is dropped.
  unfoldable pub receive_as : SaceResultHeader → Option ℕ → api.Parcel → Sender → Run Sender
  unfolding receive_result receive_response
  receive_as header rights p s =
      if nat_eq header.type base_normal
      then (if ltb (api.data_size p) header.len then done s else receive_result rights p s)
      else if nat_eq header.type base_response
      then (if ltb (api.data_size p) header.len then done s else receive_response p s)
      else done s

  -- `size` bytes at the start of a parcel, and the descriptor that came with them.
  unfoldable pub receive : ℕ → Option ℕ → api.Parcel → Sender → Run Sender
  unfolding receive_as
  receive size rights p s = if ltb size result_header_size then done s else (do
    (header, q) ← read_header api p
    receive_as header rights (api.set_data_position 0 q) s)
