-- ===== src/Wire/Command/Read.antt =====
-- SaceCommand::readFromParcel reads the layout of a command.
use sa_excutor.Common.{
  ℕ, ◌<◌, ◌≤◌, ◌≡◌, refl, sym, Bool, true, false, [], ◌∷◌, ◌++◌, Option, none, some, nat_eq, length,
  if◌then◌else◌,
}
use mathlib.Core.Path.{subst}
use sa_excutor.Params.{SaceCommandParams, EventPart}
use sa_excutor.Types.{SaceCommand, type_event, extra_bufer_len}
use sa_excutor.Wire.Laws.{Item, ParcelApi, IsLawful}
use sa_excutor.Wire.Rules.{
  ◌>>=◌, pure, lift, Reads, Reads-next, Reads-pure, Reads-bind, Reads-map, Faults, Faults-next,
  Faults-bind,
}
use sa_excutor.Wire.Extra.{Reads-extra, Faults-extra}
use sa_excutor.Wire.Params.{
  base_items, event_part, read_base_lem, read_event_params_lem, read_base, read_event_params,
}
use sa_excutor.Wire.Command.{is_known, read_union, read_command_params, read_command}
use sa_excutor.Wire.Command.Layout.{
  union_items, read_back, params_read, body_read, HasParams, head_items,
}

module _ {api : ParcelApi} {laws : IsLawful api} where
  Reads-params :
      (b : Bool) (p : SaceCommandParams)
      → (b ≡ true → (e : EventPart) × (p.event ≡ some e))
      → Reads api laws
          (if b
            then read_event_params api (length p.capabilities)
            else read_base api (length p.capabilities))
          (base_items p ++ (if b then event_part p.event else []))
          (if b then p else record p { event = none })
  Reads-params true p h =
      let (e, eq) = h refl in
      subst
        (λ o.
          Reads api laws (read_event_params api (length p.capabilities))
            (base_items p ++ event_part o) (record p { event = o }))
        (sym eq) (read_event_params_lem p e)
  Reads-params false p h = read_base_lem p

  -- The flag, the parameters, and what is made of them.
  Reads-tail :
      {A : Type 0} (cap_size type : ℕ) (o : Option SaceCommandParams)
      (g : Option SaceCommandParams → A)
      → HasParams cap_size type o
      → Reads api laws
          (lift api.read_bool >>= λ has_params.
            read_command_params api cap_size type none has_params >>= λ params. pure (g params))
          (params_read type o)
          (g (read_back type o))
  unfolding read_command_params
  Reads-tail cap_size type none g h =
      Reads-next _ _ _ _ _ _ (laws.bool_lem false)
        (Reads-map (pure none) g [] none (Reads-pure none))
  Reads-tail cap_size type (some p) g h = Reads-next _ _ _ _ _ _ (laws.bool_lem true) (
      Reads-map _ g _ _
        (Reads-map _ some _ _ (rw (← h.0) (Reads-params (nat_eq type type_event) p h.1))))

  Reads-union :
      (b : Bool) (i j : ℕ) (old : ℕ × ℕ)
      → b ≡ true
      → Reads api laws
          (if b
            then (do
              cmd_type ← lift api.read_byte
              cmd_flags ← lift api.read_byte
              pure (cmd_type, cmd_flags))
            else pure old)
          (if b then Item.byte i ∷ Item.byte j ∷ [] else [])
          (i, j)
  Reads-union true i j old h =
      Reads-next _ _ _ _ _ _ (laws.byte_lem i)
        (Reads-next _ _ _ _ _ _ (laws.byte_lem j) (Reads-pure _))
  Reads-union false i j old h = absurd (cc)

  pub Reads-command :
      (cap_size n : ℕ) (c fresh : SaceCommand)
      → is_known c.type ≡ true
      → length c.extra ≤ extra_bufer_len
      → HasParams cap_size c.type c.command_params
      → fresh.command_params ≡ none
      → Reads api laws
          (read_command api cap_size fresh)
          (Item.u32 n ∷ body_read c)
          (record c { len = n; command_params = read_back c.type c.command_params })
  unfolding read_command read_union
  Reads-command cap_size n c fresh known fits params plain = rw plain (
      Reads-next _ _ _ _ _ _ (laws.uint32_lem n) (
        Reads-next _ _ _ _ _ _ (laws.byte_lem c.type) (
          Reads-next _ _ _ _ _ _ (laws.uint32_lem c.sequence) (
            Reads-next _ _ _ _ _ _ (laws.uint64_lem c.label) (
              Reads-next _ _ _ _ _ _ (laws.text_lem c.name) (
                Reads-next _ _ _ _ _ _ (laws.text_lem c.command) (
                  Reads-next _ _ _ _ _ _ (laws.uint32_lem (length c.extra)) (
                    Reads-bind _ _ (Item.raw c.extra ∷ []) _ _ _ (Reads-extra c.extra fits) (
                      Reads-bind _ _ (union_items c) _ _ _
                        (Reads-union (is_known c.type) c.cmd_type c.cmd_flags _ known)
                        (Reads-tail cap_size c.type c.command_params _ params))))))))))

  pub Faults-command :
      (cap_size n : ℕ) (c fresh : SaceCommand)
      → extra_bufer_len < length c.extra
      → Faults api laws (read_command api cap_size fresh) (head_items n c ++ Item.raw c.extra ∷ [])
  unfolding read_command
  Faults-command cap_size n c fresh h = Faults-next _ _ _ _ _ (laws.uint32_lem n) (
      Faults-next _ _ _ _ _ (laws.byte_lem c.type) (
        Faults-next _ _ _ _ _ (laws.uint32_lem c.sequence) (
          Faults-next _ _ _ _ _ (laws.uint64_lem c.label) (
            Faults-next _ _ _ _ _ (laws.text_lem c.name) (
              Faults-next _ _ _ _ _ (laws.text_lem c.command) (
                Faults-next _ _ _ _ _ (laws.uint32_lem (length c.extra))
                  (Faults-bind _ _ (Item.raw c.extra ∷ []) (Faults-extra c.extra h))))))))
