-- ===== src/Wire/Result/Layout.antt =====
-- The layouts of a result and of a response on the wire.
use sa_excutor.Common.{ℕ, ◌≡◌, refl, ap, List, [], ◌∷◌, Option, none, some, length, arith}
use sa_excutor.Common.Map.{or_else}
use sa_excutor.Types.{SaceResult, SaceStatusResponse}
use sa_excutor.Types.Command.{
  SaceResultStatus, SaceResultType, SaceResponseStatus, SaceResponseType,
}
use sa_excutor.Wire.Laws.{Item, ParcelApi, IsLawful}
use sa_excutor.Wire.Rules.{write_all}
use sa_excutor.Wire.Size.{write_size}
use sa_excutor.Wire.Result.{
  base_normal, base_response, status_code, type_code, response_status_code, response_type_code,
  enumerator, result_statuses, result_types, response_statuses, response_types, write_fd,
  write_result, write_response,
}

abbrev pub fd_items : SaceResultType → ℕ → List Item
fd_items SaceResultType.fd fd = Item.descriptor fd ∷ []
fd_items _ fd = []

-- The values of a result and of a response after the word of the size.
abbrev pub result_items : ℕ → SaceResult → List Item
result_items unset r =
    Item.byte base_normal
    ∷ Item.u64 r.label
    ∷ Item.u32 r.sequence
    ∷ Item.text r.name
    ∷ Item.byte (type_code r.result_type)
    ∷ Item.byte (status_code r.result_status)
    ∷ Item.u32 (length r.result_extra)
    ∷ Item.raw r.result_extra
    ∷ fd_items r.result_type (or_else unset r.result_fd)

abbrev pub response_items : SaceStatusResponse → List Item
response_items r =
    Item.byte base_response
    ∷ Item.u64 r.label
    ∷ Item.text r.name
    ∷ Item.byte (response_type_code r.type)
    ∷ Item.byte (response_status_code r.status)
    ∷ Item.u32 (length r.extra)
    ∷ Item.raw r.extra
    ∷ []

-- The descriptor that a reader finds: only a result of type FD carries one.
abbrev pub carried_fd : ℕ → SaceResultType → Option ℕ → Option ℕ
carried_fd unset SaceResultType.fd fd = some (or_else unset fd)
carried_fd unset _ fd = none

pub enumerator-status : (s : SaceResultStatus) → enumerator result_statuses (status_code s) ≡ some s
enumerator-status s = ground arith

pub enumerator-type : (t : SaceResultType) → enumerator result_types (type_code t) ≡ some t
enumerator-type t = ground arith

pub enumerator-response_status :
    (s : SaceResponseStatus) → enumerator response_statuses (response_status_code s) ≡ some s
enumerator-response_status s = ground arith

pub enumerator-response_type :
    (t : SaceResponseType) → enumerator response_types (response_type_code t) ≡ some t
enumerator-response_type t = ground arith

module _ (api : ParcelApi) (laws : IsLawful api) where
  write_fd_lem :
      (t : SaceResultType) (fd : ℕ) (p : api.Parcel)
      → write_fd api t fd p ≡ write_all api (fd_items t fd) p
  unfolding write_fd
  write_fd_lem SaceResultType.fd fd p = refl
  write_fd_lem SaceResultType.nothing fd p = refl
  write_fd_lem SaceResultType.start fd p = refl
  write_fd_lem SaceResultType.close fd p = refl
  write_fd_lem SaceResultType.extra fd p = refl
  write_fd_lem SaceResultType.label fd p = refl

  pub write_result_lem :
      (unset : ℕ) (r : SaceResult) (p : api.Parcel)
      → write_result api unset r p
        ≡ write_size api (write_all api (Item.u32 0 ∷ result_items unset r) p)
  unfolding write_result
  write_result_lem unset r p =
      ap (write_size api) (write_fd_lem r.result_type (or_else unset r.result_fd) _)

  pub write_response_lem :
      (r : SaceStatusResponse) (p : api.Parcel)
      → write_response api r p ≡ write_size api (write_all api (Item.u32 0 ∷ response_items r) p)
  unfolding write_response
  write_response_lem r p = refl
