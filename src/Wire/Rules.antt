-- ===== src/Wire/Rules.antt =====
-- Readers of a parcel as a monad, and the rules by which a reader is shown to read a layout.
use sa_excutor.Common.{
  ◌≡◌, List, [], ◌∷◌, ◌++◌, append_assoc, append_nil, Run, done, hangs, undefined, All, refl,
  if◌then◌else◌, Bool, true, false,
}
use sa_excutor.Wire.Laws.{Item, ParcelApi, Fits, IsLawful, ReadsItem}

-- A reader moves the position, and may do what the language leaves undefined.
abbrev pub Reader : Type 0 → Type 0 → Type 0
Reader P A = P → Run (A × P)

infixl 5 ◌>>=◌
unfoldable pub ◌>>=◌ : {P A B : Type 0} → Reader P A → (A → Reader P B) → Reader P B
(m >>= f) p = elim (m p) [ done (a, q) ↦ f a q | hangs ↦ hangs | undefined ↦ undefined ]

unfoldable pub pure : {P A : Type 0} → A → Reader P A
pure a p = done (a, p)

unfoldable pub lift : {P A : Type 0} → (P → A × P) → Reader P A
lift read p = done (read p)

unfoldable pub fault : {P A : Type 0} → Reader P A
fault p = undefined

-- A left-to-right chain of writes.
infixl 6 ◌▷◌
abbrev pub ◌▷◌ : {P Q : Type 0} → P → (P → Q) → Q
p ▷ f = f p

abbrev pub write_all : (api : ParcelApi) → List Item → api.Parcel → api.Parcel
write_all api [] p = p
write_all api (i ∷ is) p = write_all api is (api.write i p)

module _ (api : ParcelApi) (laws : IsLawful api) where
  -- At a position where the items `is` come next, `m` returns `v` and moves past them.
  pub record Reads {A : Type 0} (m : Reader api.Parcel A) (is : List Item) (v : A) : Type 0 where
    pub at :
        (p : api.Parcel) (b a : List Item)
        → laws.view p ≡ (b, is ++ a)
        → (q : api.Parcel) × (m p ≡ done (v, q)) × (laws.view q ≡ (b ++ is, a))

  -- At such a position `m` does what the language leaves undefined.
  pub record Faults {A : Type 0} (m : Reader api.Parcel A) (is : List Item) : Type 0 where
    pub at : (p : api.Parcel) (b a : List Item) → laws.view p ≡ (b, is ++ a) → m p ≡ undefined

  pub view-write_all :
      (is : List Item) (p : api.Parcel) (b : List Item)
      → All (Fits api) is
      → laws.view p ≡ (b, [])
      → laws.view (write_all api is p) ≡ (b ++ is, [])
  view-write_all [] p b h e = rw append_nil e
  view-write_all (i ∷ is) p b h e =
      rw (← append_assoc b (i ∷ []) is)
        (view-write_all is (api.write i p) (b ++ i ∷ []) h.1 (laws.append_lem i p b h.0 e))

module _ {api : ParcelApi} {laws : IsLawful api} where
  pub Reads-pure : {A : Type 0} (v : A) → Reads api laws (pure v) [] v
  unfolding pure
  Reads-pure v = record { at = λ p b a e. (p, refl, rw append_nil e) }

  pub Reads-lift :
      {A : Type 0} (read : api.Parcel → A × api.Parcel) (i : Item) (v : A)
      → ReadsItem laws.view read i v
      → Reads api laws (lift read) (i ∷ []) v
  unfolding lift
  Reads-lift read i v h = record {
    at = λ p b a e. let (value, seen) = h p b a e in ((read p).1, rw (← value) refl, seen);
  }

  pub Reads-bind :
      {A B : Type 0} (m : Reader api.Parcel A) (f : A → Reader api.Parcel B) (is js : List Item)
      (v : A) (w : B)
      → Reads api laws m is v
      → Reads api laws (f v) js w
      → Reads api laws (m >>= f) (is ++ js) w
  unfolding ◌>>=◌
  Reads-bind m f is js v w hm hf = record {
    at = λ p b a e.
        let (q, eq, vq) = hm.at p b (js ++ a) (rw (← append_assoc is js a) e) in
        let (r, er, vr) = hf.at q (b ++ is) a vq in
        (r, rw (eq, ◌>>=◌) er, rw (← append_assoc b is js) vr);
  }

  -- One primitive read, then the rest.
  pub Reads-next :
      {A B : Type 0} (read : api.Parcel → A × api.Parcel) (f : A → Reader api.Parcel B) (i : Item)
      (js : List Item) (v : A) (w : B)
      → ReadsItem laws.view read i v
      → Reads api laws (f v) js w
      → Reads api laws (lift read >>= f) (i ∷ js) w
  Reads-next read f i js v w h hf =
      Reads-bind (lift read) f (i ∷ []) js v w (Reads-lift read i v h) hf

  pub Reads-map :
      {A B : Type 0} (m : Reader api.Parcel A) (g : A → B) (is : List Item) (v : A)
      → Reads api laws m is v
      → Reads api laws (m >>= λ x. pure (g x)) is (g v)
  unfolding ◌>>=◌ pure
  Reads-map m g is v h = record {
    at = λ p b a e. let (q, eq, vq) = h.at p b a e in (q, rw (eq, ◌>>=◌) refl, vq);
  }

  -- A branch that its test takes.
  pub Reads-then :
      {A : Type 0} (b : Bool) (m n : Reader api.Parcel A) (is : List Item) (v : A)
      → b ≡ true
      → Reads api laws m is v
      → Reads api laws (if b then m else n) is v
  Reads-then true m n is v h r = r
  Reads-then false m n is v h r = absurd (cc)

  pub Faults-else :
      {A : Type 0} (b : Bool) (m : Reader api.Parcel A)
      → b ≡ false
      → Faults api laws (if b then m else fault) []
  unfolding fault
  Faults-else true m h = absurd (cc)
  Faults-else false m h = record { at = λ p b a e. refl }

  pub Faults-next :
      {A B : Type 0} (read : api.Parcel → A × api.Parcel) (f : A → Reader api.Parcel B) (i : Item)
      (js : List Item) (v : A)
      → ReadsItem laws.view read i v
      → Faults api laws (f v) js
      → Faults api laws (lift read >>= f) (i ∷ js)
  unfolding ◌>>=◌ lift
  Faults-next read f i js v h hf = record {
    at = λ p b a e.
        let (value, seen) = h p b (js ++ a) e in
        rw (◌>>=◌, lift, value) (hf.at (read p).1 (b ++ i ∷ []) a seen);
  }

  pub Faults-bind :
      {A B : Type 0} (m : Reader api.Parcel A) (f : A → Reader api.Parcel B) (is : List Item)
      → Faults api laws m is
      → Faults api laws (m >>= f) is
  unfolding ◌>>=◌
  Faults-bind m f is h = record { at = λ p b a e. rw (◌>>=◌, h.at p b a e) refl }
