-- ===== src/Wire/Command/Write.antt =====
-- SaceCommand::writeToParcel writes the layout of the command.
use sa_excutor.Common.{
  ℕ, ◌<◌, ◌≡◌, refl, sym, ap, ◌∙◌, Bool, true, false, List, [], ◌∷◌, ◌++◌, Option, none, some,
  if◌then◌else◌, All,
}
use sa_excutor.Params.{SaceCommandParams, EventPart}
use sa_excutor.Types.{SaceCommand, u32_mod}
use sa_excutor.Wire.Laws.{Item, ParcelApi, Fits, IsLawful, size_of}
use sa_excutor.Wire.Rules.{view-write_all, write_all}
use sa_excutor.Wire.Params.{base_items, event_part, write_event}
use sa_excutor.Wire.Command.{
  is_known, write_command, write_fields, write_union, write_command_params,
}
use sa_excutor.Wire.Size.{write_size, write_size_lem}
use sa_excutor.Wire.Command.Layout.{params_items, body_items}

module _ (api : ParcelApi) (laws : IsLawful api) where
  write_event_lem :
      (o : Option EventPart) (q : api.Parcel) → write_event api o q ≡ write_all api (event_part o) q
  unfolding write_event
  write_event_lem none q = refl
  write_event_lem (some e) q = refl

  write_params_lem :
      (o : Option SaceCommandParams) (q : api.Parcel)
      → write_command_params api o q ≡ write_all api (params_items o) q
  unfolding write_command_params
  write_params_lem none q = refl
  write_params_lem (some p) q =
      write_event_lem p.event (write_all api (Item.flag true ∷ base_items p) q)

  write_union_lem :
      (b : Bool) (i j : Item) (is : List Item) (q : api.Parcel)
      → write_all api ((if b then i ∷ j ∷ [] else []) ++ is) q
        ≡ write_all api is (if b then api.write j (api.write i q) else q)
  write_union_lem true i j is q = refl
  write_union_lem false i j is q = refl

  pub write_body_lem :
      (c : SaceCommand) (p : api.Parcel)
      → write_command api c p ≡ write_size api (write_all api (Item.u32 0 ∷ body_items c) p)
  unfolding write_command
  write_body_lem c p = ap (write_size api) (
      write_params_lem c.command_params (write_union api c (write_fields api c p))
      ∙ sym (
          write_union_lem (is_known c.type) (Item.byte c.cmd_type) (Item.byte c.cmd_flags)
            (params_items c.command_params) (write_fields api c p)))

  -- A command that is written at the end of a parcel appends its values after a word 0, and the
  -- size of the whole parcel is written over the first word of the parcel: over the command's own
  -- word in an empty parcel, over a word of what stands there already in another.
  pub write_command_lem :
      (c : SaceCommand) (p : api.Parcel) (b rest : List Item) (m : ℕ)
      → All (Fits api) (Item.u32 0 ∷ body_items c)
      → laws.view p ≡ (b, [])
      → b ++ (Item.u32 0 ∷ body_items c) ≡ Item.u32 m ∷ rest
      → size_of laws.width (Item.u32 m ∷ rest) < u32_mod
      → laws.view (write_command api c p)
        ≡ (Item.u32 (size_of laws.width (Item.u32 m ∷ rest)) ∷ rest, [])
  write_command_lem c p b rest m fits e first small = rw (write_body_lem c p) (
      write_size_lem api laws _ m rest small
        (rw (← first) (view-write_all api laws (Item.u32 0 ∷ body_items c) p b fits e)))
