-- ===== src/Wire/Extra.antt =====
-- The arrays `extra` and `resultExtra`, which are read with a length from the parcel.
use sa_excutor.Common.{
  ℕ, ◌<◌, ◌≤◌, List, [], ◌∷◌, none, some, leb, le→leb, lt→not-leb, length, if◌then◌else◌,
}
use sa_excutor.Common.Bytes.{replicate}
use sa_excutor.Types.{extra_bufer_len}
use sa_excutor.Wire.Laws.{Item, ParcelApi, IsLawful}
use sa_excutor.Wire.Rules.{
  Reader, ◌>>=◌, pure, lift, fault, Reads, Reads-next, Reads-pure, Reads-then, Faults, Faults-next,
  Faults-else,
}

module _ (api : ParcelApi) where
  -- `data->read(extra, extraLen)` into a zeroed buffer of EXTRA_BUFER_LEN bytes: the length comes
  -- from the parcel, and a longer array that is there is copied past the end of the buffer.
  unfoldable pub read_extra : ℕ → Reader api.Parcel (List ℕ)
  read_extra len = do
    read ← lift (api.read_raw len)
    elim read [
      | none ↦ pure (replicate len 0)
      | some bytes ↦ if leb len extra_bufer_len then pure bytes else fault
    ]

module _ {api : ParcelApi} {laws : IsLawful api} where
  pub Reads-extra :
      (bs : List ℕ)
      → length bs ≤ extra_bufer_len
      → Reads api laws (read_extra api (length bs)) (Item.raw bs ∷ []) bs
  unfolding read_extra
  Reads-extra bs h =
      Reads-next _ _ _ _ _ _ (laws.raw_lem bs)
        (Reads-then _ (pure bs) fault [] bs (le→leb (length bs) extra_bufer_len h) (Reads-pure bs))

  pub Faults-extra :
      (bs : List ℕ)
      → extra_bufer_len < length bs
      → Faults api laws (read_extra api (length bs)) (Item.raw bs ∷ [])
  unfolding read_extra
  Faults-extra bs h =
      Faults-next _ _ _ _ _ (laws.raw_lem bs)
        (Faults-else _ (pure bs) (lt→not-leb (length bs) extra_bufer_len h))
