-- ===== src/Wire/Result.antt =====
-- The codecs of SaceResult and SaceStatusResponse (libsace/SaceTypes.cpp), on objects that their
-- constructors made. A byte that is no enumerator of its type has no value in this model: `fault`.
pub mod Layout
pub mod RoundTrip
use sa_excutor.Common.{
  ℕ, zero, suc, List, [], ◌∷◌, Str, Option, none, some, nat_eq, length, if◌then◌else◌,
}
use sa_excutor.Common.Map.{or_else}
use sa_excutor.Types.{SaceResult, SaceStatusResponse}
use sa_excutor.Types.Command.{
  SaceResultStatus, SaceResultType, SaceResponseStatus, SaceResponseType,
}
use sa_excutor.Wire.Laws.{Item, ParcelApi}
use sa_excutor.Wire.Rules.{Reader, ◌>>=◌, pure, lift, fault, ◌▷◌}
use sa_excutor.Wire.Extra.{read_extra}
use sa_excutor.Wire.Size.{write_size}

-- `SACE_BASE_RESULT_TYPE_NORMAL` and `SACE_BASE_RESULT_TYPE_RESPONSE`.
abbrev pub base_normal : ℕ
base_normal = 0

abbrev pub base_response : ℕ
base_response = 1

abbrev pub status_code : SaceResultStatus → ℕ
status_code SaceResultStatus.ok = 0
status_code SaceResultStatus.timeout = 1
status_code SaceResultStatus.fail = 2
status_code SaceResultStatus.secure = 3
status_code SaceResultStatus.exists = 4

abbrev pub type_code : SaceResultType → ℕ
type_code SaceResultType.nothing = 0
type_code SaceResultType.start = 1
type_code SaceResultType.close = 2
type_code SaceResultType.fd = 3
type_code SaceResultType.extra = 4
type_code SaceResultType.label = 5

abbrev pub response_status_code : SaceResponseStatus → ℕ
response_status_code SaceResponseStatus.exit = 0
response_status_code SaceResponseStatus.signal = 1
response_status_code SaceResponseStatus.user = 2
response_status_code SaceResponseStatus.unknown = 3

abbrev pub response_type_code : SaceResponseType → ℕ
response_type_code SaceResponseType.normal = 0
response_type_code SaceResponseType.service = 1

-- The casts of a byte to an enumeration: its enumerators in order.
abbrev pub enumerator : {A : Type 0} → List A → ℕ → Option A
enumerator [] n = none
enumerator (a ∷ as') zero = some a
enumerator (a ∷ as') (suc n) = enumerator as' n

abbrev pub result_statuses : List SaceResultStatus
result_statuses =
    SaceResultStatus.ok ∷ SaceResultStatus.timeout ∷ SaceResultStatus.fail ∷ SaceResultStatus.secure
    ∷ SaceResultStatus.exists ∷ []

abbrev pub result_types : List SaceResultType
result_types =
    SaceResultType.nothing ∷ SaceResultType.start ∷ SaceResultType.close ∷ SaceResultType.fd
    ∷ SaceResultType.extra ∷ SaceResultType.label ∷ []

abbrev pub response_statuses : List SaceResponseStatus
response_statuses =
    SaceResponseStatus.exit ∷ SaceResponseStatus.signal ∷ SaceResponseStatus.user
    ∷ SaceResponseStatus.unknown ∷ []

abbrev pub response_types : List SaceResponseType
response_types = SaceResponseType.normal ∷ SaceResponseType.service ∷ []

-- The header of a result or response: the size, the type of the message and the label.
pub record SaceResultHeader : Type 0 where
  pub len : ℕ
  pub type : ℕ
  pub label : ℕ

module _ (api : ParcelApi) where
  unfoldable pub reserve_result_space : ℕ → ℕ → api.Parcel → api.Parcel
  reserve_result_space type label p =
      p ▷ api.write (Item.u32 0) ▷ api.write (Item.byte type) ▷ api.write (Item.u64 label)

  unfoldable pub write_fd : SaceResultType → ℕ → api.Parcel → api.Parcel
  write_fd SaceResultType.fd fd p = api.write (Item.descriptor fd) p
  write_fd _ fd p = p

  -- `unset` is what the memory of a `resultFd` holds that nothing has set.
  unfoldable pub write_result : ℕ → SaceResult → api.Parcel → api.Parcel
  unfolding reserve_result_space write_fd write_size
  write_result unset r p =
      reserve_result_space base_normal r.label p
      ▷ api.write (Item.u32 r.sequence)
      ▷ api.write (Item.text r.name)
      ▷ api.write (Item.byte (type_code r.result_type))
      ▷ api.write (Item.byte (status_code r.result_status))
      ▷ api.write (Item.u32 (length r.result_extra))
      ▷ api.write (Item.raw r.result_extra)
      ▷ write_fd r.result_type (or_else unset r.result_fd)
      ▷ write_size api

  unfoldable pub write_response : SaceStatusResponse → api.Parcel → api.Parcel
  unfolding reserve_result_space write_size
  write_response r p =
      reserve_result_space base_response r.label p
      ▷ api.write (Item.text r.name)
      ▷ api.write (Item.byte (response_type_code r.type))
      ▷ api.write (Item.byte (response_status_code r.status))
      ▷ api.write (Item.u32 (length r.extra))
      ▷ api.write (Item.raw r.extra)
      ▷ write_size api

  unfoldable pub read_header : Reader api.Parcel SaceResultHeader
  read_header = do
    len ← lift api.read_uint32
    type ← lift api.read_byte
    label ← lift api.read_uint64
    pure record { len = len; type = type; label = label }

  unfoldable pub read_enum : {A : Type 0} → List A → Reader api.Parcel A
  read_enum values = do
    byte ← lift api.read_byte
    elim (enumerator values byte) [ none ↦ fault | some value ↦ pure value ]

  unfoldable pub read_fd : SaceResultType → Reader api.Parcel (Option ℕ)
  read_fd SaceResultType.fd = lift api.read_descriptor >>= λ fd. pure (some fd)
  read_fd _ = pure none

  unfoldable pub read_result : Reader api.Parcel (SaceResultHeader × SaceResult)
  unfolding read_header read_enum read_extra read_fd
  read_result = do
    header ← read_header
    sequence ← lift api.read_uint32
    name ← lift api.read_text
    result_type ← read_enum result_types
    result_status ← read_enum result_statuses
    extra_len ← lift api.read_uint32
    result_extra ← read_extra api extra_len
    result_fd ← read_fd result_type
    pure (
      header,
      record {
        label = header.label;
        sequence = sequence;
        name = or_else [] name;
        result_type = result_type;
        result_status = result_status;
        result_extra = result_extra;
        result_fd = result_fd;
      },
    )

  unfoldable pub read_response : Reader api.Parcel (SaceResultHeader × SaceStatusResponse)
  unfolding read_header read_enum read_extra
  read_response = do
    header ← read_header
    name ← lift api.read_text
    type ← read_enum response_types
    status ← read_enum response_statuses
    extra_len ← lift api.read_uint32
    extra ← read_extra api extra_len
    pure (
      header,
      record {
        label = header.label;
        name = or_else [] name;
        type = type;
        status = status;
        extra = extra;
      },
    )
