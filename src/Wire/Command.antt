-- ===== src/Wire/Command.antt =====
-- writeToParcel and readFromParcel of SaceCommandHeader and SaceCommand (libsace/SaceTypes.cpp).
pub mod Layout
pub mod Write
pub mod Read
pub mod RoundTrip
use sa_excutor.Common.{
  ℕ, ◌+◌, Bool, true, false, Str, List, [], ◌∷◌, ◌++◌, Option, none, some, nat_eq, leb, length,
  if◌then◌else◌,
}
use sa_excutor.Common.Map.{or_else}
use sa_excutor.Params.{SaceCommandParams}
use sa_excutor.Types.{
  SaceCommand, new_command, type_normal, type_service, type_event, extra_bufer_len,
}
use sa_excutor.Wire.Laws.{Item, ParcelApi}
use sa_excutor.Wire.Rules.{Reader, ◌>>=◌, pure, lift, fault, ◌▷◌}
use sa_excutor.Wire.Extra.{read_extra}
use sa_excutor.Wire.Size.{write_size}
use sa_excutor.Wire.Params.{write_params, read_base, read_event_params}

-- `parcelSize`.
abbrev pub command_header_size : ℕ
command_header_size = 9

-- One of the three types that have a part of their own.
abbrev pub is_known : ℕ → Bool
is_known type =
    if nat_eq type type_normal
    then true
    else if nat_eq type type_service
    then true
    else nat_eq type type_event

module _ (api : ParcelApi) where
  unfoldable pub reserve_space : SaceCommand → api.Parcel → api.Parcel
  reserve_space c p =
      p ▷ api.write (Item.u32 0) ▷ api.write (Item.byte c.type) ▷ api.write (Item.u32 c.sequence)

  -- The two bytes of the union.
  unfoldable pub write_union : SaceCommand → api.Parcel → api.Parcel
  write_union c p =
      if is_known c.type
      then (p ▷ api.write (Item.byte c.cmd_type) ▷ api.write (Item.byte c.cmd_flags))
      else p

  unfoldable pub write_command_params : Option SaceCommandParams → api.Parcel → api.Parcel
  unfolding write_params
  write_command_params none p = api.write (Item.flag false) p
  write_command_params (some params) p = p ▷ api.write (Item.flag true) ▷ write_params api params

  -- All that stands before the union.
  unfoldable pub write_fields : SaceCommand → api.Parcel → api.Parcel
  unfolding reserve_space
  write_fields c p =
      reserve_space c p
      ▷ api.write (Item.u64 c.label)
      ▷ api.write (Item.text c.name)
      ▷ api.write (Item.text c.command)
      ▷ api.write (Item.u32 (length c.extra))
      ▷ api.write (Item.raw c.extra)

  unfoldable pub write_command : SaceCommand → api.Parcel → api.Parcel
  unfolding write_fields write_union write_command_params write_size
  write_command c p =
      p ▷ write_fields c ▷ write_union c ▷ write_command_params c.command_params ▷ write_size api

  unfoldable pub read_union : ℕ → ℕ × ℕ → Reader api.Parcel (ℕ × ℕ)
  read_union type old =
      if is_known type
      then (do
        cmd_type ← lift api.read_byte
        cmd_flags ← lift api.read_byte
        pure (cmd_type, cmd_flags))
      else pure old

  unfoldable pub read_command_params :
      ℕ → ℕ → Option SaceCommandParams → Bool → Reader api.Parcel (Option SaceCommandParams)
  read_command_params cap_size type old false = pure old
  read_command_params cap_size type old true = do
    params ←
        (if nat_eq type type_event then read_event_params api cap_size else read_base api cap_size)
    pure (some params)

  -- `readFromParcel` on a command that its constructor made.
  unfoldable pub read_command : ℕ → SaceCommand → Reader api.Parcel SaceCommand
  unfolding read_extra read_union read_command_params
  read_command cap_size fresh = do
    len ← lift api.read_uint32
    type ← lift api.read_byte
    sequence ← lift api.read_uint32
    label ← lift api.read_uint64
    name ← lift api.read_text
    command ← lift api.read_text
    extra_len ← lift api.read_uint32
    extra ← read_extra api extra_len
    union ← read_union type (fresh.cmd_type, fresh.cmd_flags)
    has_params ← lift api.read_bool
    params ← read_command_params cap_size type fresh.command_params has_params
    pure record {
      len = len;
      type = type;
      sequence = sequence;
      label = label;
      name = or_else fresh.name name;
      command = or_else fresh.command command;
      command_params = params;
      extra = extra;
      cmd_type = union.0;
      cmd_flags = union.1;
    }
