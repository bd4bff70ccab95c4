-- ===== src/Wire/Size.antt =====
-- The word that holds the size of a parcel: writeToParcel of SaceCommandHeader and SaceResultHeader.
use sa_excutor.Common.{ℕ, ◌+◌, ◌<◌, ◌≡◌, ◌∙◌, sym, ap, List, [], ◌∷◌, ◌++◌, append_nil, All, done}
use sa_excutor.Types.{u32_mod}
use sa_excutor.Wire.Laws.{Item, ParcelApi, IsLawful, size_of, Fits}
use sa_excutor.Wire.Rules.{Reader, Reads, write_all, view-write_all}

module _ (api : ParcelApi) where
  -- `writeToParcel` of the two headers: the size is written over the word that was kept for it.
  unfoldable pub write_size : api.Parcel → api.Parcel
  write_size p =
      let start = api.set_data_position 0 p in
      api.set_data_position (api.data_position p) (api.write (Item.u32 (api.data_size start)) start)

module _ (api : ParcelApi) (laws : IsLawful api) where
  pub write_size_lem :
      (p : api.Parcel) (m : ℕ) (rest : List Item)
      → size_of laws.width (Item.u32 m ∷ rest) < u32_mod
      → laws.view p ≡ (Item.u32 m ∷ rest, [])
      → laws.view (write_size api p)
        ≡ (Item.u32 (size_of laws.width (Item.u32 m ∷ rest)) ∷ rest, [])
  unfolding write_size
  write_size_lem p m rest h e =
      let all = Item.u32 m ∷ rest in
      let start = api.set_data_position 0 p in
      let at_start : laws.view start ≡ ([], all) =
        laws.seek_lem p all [] [] all e (append_nil all) in
      let size : api.data_size start ≡ size_of laws.width all =
        laws.size_lem start [] all at_start in
      let n = size_of laws.width all in
      let over : laws.view (api.write (Item.u32 n) start) ≡ (Item.u32 n ∷ [], rest) =
        laws.overwrite_lem m n start [] rest h at_start in
      let same : api.data_position p ≡ size_of laws.width (Item.u32 n ∷ rest) =
        laws.position_lem p all [] e
        ∙ ap (λ (w : ℕ). w + size_of laws.width rest) (laws.width_u32 m ∙ sym (laws.width_u32 n)) in
      rw (write_size, size)
        (rw same (
          laws.seek_lem (api.write (Item.u32 n) start) (Item.u32 n ∷ []) rest (Item.u32 n ∷ rest) []
            over (sym (append_nil (Item.u32 n ∷ rest)))))

  written_lem :
      (all : List Item) (p : api.Parcel)
      → All (Fits api) (Item.u32 0 ∷ all)
      → size_of laws.width (Item.u32 0 ∷ all) < u32_mod
      → laws.view p ≡ ([], [])
      → laws.view (write_size api (write_all api (Item.u32 0 ∷ all) p))
        ≡ (Item.u32 (size_of laws.width (Item.u32 0 ∷ all)) ∷ all, [])
  written_lem all p fits small e =
      write_size_lem _ 0 all small (view-write_all api laws (Item.u32 0 ∷ all) p [] fits e)

  -- The parcel of a layout at its start.
  pub written_start :
      (all : List Item) (p : api.Parcel)
      → All (Fits api) (Item.u32 0 ∷ all)
      → size_of laws.width (Item.u32 0 ∷ all) < u32_mod
      → laws.view p ≡ ([], [])
      → laws.view (api.set_data_position 0 (write_size api (write_all api (Item.u32 0 ∷ all) p)))
        ≡ ([], Item.u32 (size_of laws.width (Item.u32 0 ∷ all)) ∷ all)
  written_start all p fits small e =
      laws.seek_lem _ _ [] [] _ (written_lem all p fits small e) (append_nil (Item.u32 _ ∷ all))

  -- A reader of a size and of the first values of a layout, after a writer of the whole layout in an
  -- empty parcel.
  pub read-write_all :
      {A : Type 0} (m : Reader api.Parcel A) (all is left : List Item) (v : ℕ → A) (p : api.Parcel)
      → ((n : ℕ) → Reads api laws m (Item.u32 n ∷ is) (v n))
      → all ≡ is ++ left
      → All (Fits api) (Item.u32 0 ∷ all)
      → size_of laws.width (Item.u32 0 ∷ all) < u32_mod
      → laws.view p ≡ ([], [])
      → (q : api.Parcel) × (m
            (api.set_data_position 0 (write_size api (write_all api (Item.u32 0 ∷ all) p)))
          ≡ done (v (api.data_size (write_size api (write_all api (Item.u32 0 ∷ all) p))), q))
  read-write_all m all is left v p reads split fits small e =
      let n = size_of laws.width (Item.u32 0 ∷ all) in
      let out = write_size api (write_all api (Item.u32 0 ∷ all) p) in
      let size : api.data_size out ≡ n =
        laws.size_lem out _ _ (written_lem all p fits small e)
        ∙ ap (size_of laws.width) (append_nil (Item.u32 n ∷ all))
        ∙ ap (λ (w : ℕ). w + size_of laws.width all) (laws.width_u32 n ∙ sym (laws.width_u32 0)) in
      let (q, eq, seen) =
        (reads n).at (api.set_data_position 0 out) [] left
          (written_start all p fits small e ∙ ap (λ (l : List Item). ([], Item.u32 n ∷ l)) split) in
      (q, rw size eq)
