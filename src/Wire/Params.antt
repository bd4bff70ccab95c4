-- ===== src/Wire/Params.antt =====
-- writeToParcel and readFromParcel of SaceCommandParams and SaceEventParams (libsace/SaceParams.cpp).
use sa_excutor.Common.{
  ℕ, zero, suc, ◌+◌, ◌*◌, ◌/◌, ◌%◌, ◌≡◌, refl, Bool, true, false, List, [], ◌∷◌, ◌++◌, Option, none,
  some, nat_eq, length, arith,
}
use mathlib.Core.Path.{subst}
use sa_excutor.Common.Map.{or_else}
use sa_excutor.Params.{SaceCommandParams, EventPart}
use sa_excutor.Wire.Laws.{Item, ParcelApi, IsLawful}
use sa_excutor.Wire.Rules.{
  Reader, ◌>>=◌, pure, lift, ◌▷◌, Reads, Reads-next, Reads-pure, Reads-bind,
}

abbrev bit : Bool → ℕ
bit true = 1
bit false = 0

-- `CapSet::to_ulong` and `CapSet(uint64_t)`; the length of the list is the size of the bitset.
unfoldable pub to_ulong : List Bool → ℕ
to_ulong [] = 0
to_ulong (b ∷ bs) = bit b + 2 * to_ulong bs

unfoldable pub cap_set : ℕ → ℕ → List Bool
cap_set zero x = []
cap_set (suc n) x = nat_eq (x % 2) 1 ∷ cap_set n (x / 2)

pub cap_set-to_ulong : (bs : List Bool) → cap_set (length bs) (to_ulong bs) ≡ bs
unfolding cap_set to_ulong
cap_set-to_ulong [] = refl
cap_set-to_ulong (b ∷ bs) =
    let half : (bit b + 2 * to_ulong bs) / 2 ≡ to_ulong bs = half_of b (to_ulong bs) in
    rw half (rw (cap_set-to_ulong bs) (low_of b (to_ulong bs) bs))
  where
    half_of : (b : Bool) (n : ℕ) → (bit b + 2 * n) / 2 ≡ n
    half_of true n = omega arith
    half_of false n = omega arith

    low_of : (b : Bool) (n : ℕ) (bs : List Bool) → nat_eq ((bit b + 2 * n) % 2) 1 ∷ bs ≡ b ∷ bs
    low_of true n bs = ground arith
    low_of false n bs = ground arith

-- The values of the two classes, in the order of the wire.
abbrev pub base_items : SaceCommandParams → List Item
base_items p =
    Item.text p.uid
    ∷ Item.text p.gid
    ∷ Item.texts p.supp_gids
    ∷ Item.text p.seclabel
    ∷ Item.u64 (to_ulong p.capabilities)
    ∷ Item.texts p.rlimits
    ∷ []

abbrev pub event_items : EventPart → List Item
event_items e = Item.flag e.boot ∷ Item.texts e.property_key ∷ Item.texts e.property_value ∷ []

abbrev pub event_part : Option EventPart → List Item
event_part none = []
event_part (some e) = event_items e

module _ (api : ParcelApi) where
  unfoldable pub write_base : SaceCommandParams → api.Parcel → api.Parcel
  write_base p parcel =
      parcel
      ▷ api.write (Item.text p.uid)
      ▷ api.write (Item.text p.gid)
      ▷ api.write (Item.texts p.supp_gids)
      ▷ api.write (Item.text p.seclabel)
      ▷ api.write (Item.u64 (to_ulong p.capabilities))
      ▷ api.write (Item.texts p.rlimits)

  unfoldable pub write_event : Option EventPart → api.Parcel → api.Parcel
  write_event none parcel = parcel
  write_event (some e) parcel =
      parcel
      ▷ api.write (Item.flag e.boot)
      ▷ api.write (Item.texts e.property_key)
      ▷ api.write (Item.texts e.property_value)

  -- `writeToParcel`, chosen by the class of the object.
  unfoldable pub write_params : SaceCommandParams → api.Parcel → api.Parcel
  unfolding write_base write_event
  write_params p parcel = write_event p.event (write_base p parcel)

  -- `readFromParcel` on an object that `make_shared` made: its strings and vectors are empty.
  unfoldable pub read_base : ℕ → Reader api.Parcel SaceCommandParams
  read_base cap_size = do
    uid ← lift api.read_text
    gid ← lift api.read_text
    supp_gids ← lift api.read_texts
    seclabel ← lift api.read_text
    capabilities ← lift api.read_uint64
    rlimits ← lift api.read_texts
    pure record {
      uid = or_else [] uid;
      gid = or_else [] gid;
      supp_gids = or_else [] supp_gids;
      rlimits = or_else [] rlimits;
      seclabel = or_else [] seclabel;
      capabilities = cap_set cap_size capabilities;
      event = none;
    }

  unfoldable pub read_event_params : ℕ → Reader api.Parcel SaceCommandParams
  unfolding read_base
  read_event_params cap_size = do
    base ← read_base cap_size
    boot ← lift api.read_bool
    property_key ← lift api.read_texts
    property_value ← lift api.read_texts
    pure record base {
      event = some (record {
        property_key = or_else [] property_key;
        property_value = or_else [] property_value;
        boot = boot;
      });
    }

module _ {api : ParcelApi} {laws : IsLawful api} where
  Reads-base :
      (n : ℕ) (p : SaceCommandParams)
      → Reads api laws
          (read_base api n)
          (base_items p)
          (record p { event = none; capabilities = cap_set n (to_ulong p.capabilities) })
  unfolding read_base
  Reads-base n p = Reads-next _ _ _ _ _ _ (laws.text_lem p.uid) (
      Reads-next _ _ _ _ _ _ (laws.text_lem p.gid) (
        Reads-next _ _ _ _ _ _ (laws.texts_lem p.supp_gids) (
          Reads-next _ _ _ _ _ _ (laws.text_lem p.seclabel) (
            Reads-next _ _ _ _ _ _ (laws.uint64_lem (to_ulong p.capabilities))
              (Reads-next _ _ _ _ _ _ (laws.texts_lem p.rlimits) (Reads-pure _))))))

  pub read_base_lem :
      (p : SaceCommandParams)
      → Reads api laws
          (read_base api (length p.capabilities))
          (base_items p)
          (record p { event = none })
  read_base_lem p =
      subst
        (λ caps.
          Reads api laws (read_base api (length p.capabilities)) (base_items p)
            (record p { event = none; capabilities = caps }))
        (cap_set-to_ulong p.capabilities) (Reads-base (length p.capabilities) p)

  pub read_event_params_lem :
      (p : SaceCommandParams) (e : EventPart)
      → Reads api laws
          (read_event_params api (length p.capabilities))
          (base_items p ++ event_items e)
          (record p { event = some e })
  unfolding read_event_params
  read_event_params_lem p e =
      Reads-bind _ _ (base_items p) (event_items e) (record p { event = none }) _ (read_base_lem p)
        (Reads-next _ _ _ _ _ _ (laws.bool_lem e.boot) (
          Reads-next _ _ _ _ _ _ (laws.texts_lem e.property_key)
            (Reads-next _ _ _ _ _ _ (laws.texts_lem e.property_value) (Reads-pure _))))
