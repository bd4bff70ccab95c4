-- ===== src/Wire/Command/RoundTrip.antt =====
-- A command is read back as it was written.
use sa_excutor.Common.{
  ℕ, ◌<◌, ◌≤◌, ◌≡◌, true, List, [], ◌∷◌, ◌++◌, none, length, All, done, undefined,
}
use sa_excutor.Types.{SaceCommand, extra_bufer_len, u32_mod}
use sa_excutor.Wire.Laws.{Item, ParcelApi, Fits, IsLawful, size_of}
use sa_excutor.Wire.Command.{is_known, write_command, read_command}
use sa_excutor.Wire.Command.Layout.{
  body_items, read_back, params_left, body_read, HasParams, head_items, split_body,
}
use sa_excutor.Wire.Command.Write.{write_body_lem}
use sa_excutor.Wire.Size.{read-write_all}
use sa_excutor.Wire.Command.Read.{Reads-command, Faults-command}

module _ (api : ParcelApi) (laws : IsLawful api) where
  -- A command of one of the three types, whose values fit their widths, is read back as it was
  -- written, but for the size, which is that of the parcel, and for the part for events of the
  -- parameters of a command that is no event.
  pub read-write_command :
      (cap_size : ℕ) (c fresh : SaceCommand) (p : api.Parcel)
      → is_known c.type ≡ true
      → length c.extra ≤ extra_bufer_len
      → HasParams cap_size c.type c.command_params
      → fresh.command_params ≡ none
      → All (Fits api) (Item.u32 0 ∷ body_items c)
      → size_of laws.width (Item.u32 0 ∷ body_items c) < u32_mod
      → laws.view p ≡ ([], [])
      → (q : api.Parcel) × (read_command api cap_size fresh
            (api.set_data_position 0 (write_command api c p))
          ≡ done (
            record c {
              len = api.data_size (write_command api c p);
              command_params = read_back c.type c.command_params;
            },
            q,
          ))
  read-write_command cap_size c fresh p known fits params plain fit small e =
      rw (write_body_lem api laws c p) (
        read-write_all api laws (read_command api cap_size fresh) (body_items c) (body_read c)
          (params_left c.type c.command_params)
          (λ n. record c { len = n; command_params = read_back c.type c.command_params }) p
          (λ n. Reads-command cap_size n c fresh known fits params plain) (split_body c) fit small
          e)

  -- Wherever the values of a command whose `extra` is longer than 256 bytes stand in a parcel,
  -- reading them is undefined: the array is copied past the end of its buffer.
  pub read_command_overflows :
      (cap_size n : ℕ) (c fresh : SaceCommand) (p : api.Parcel) (b a : List Item)
      → extra_bufer_len < length c.extra
      → laws.view p ≡ (b, (head_items n c ++ Item.raw c.extra ∷ []) ++ a)
      → read_command api cap_size fresh p ≡ undefined
  read_command_overflows cap_size n c fresh p b a h e =
      (Faults-command {laws = laws} cap_size n c fresh h).at p b a e
