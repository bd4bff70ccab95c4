-- ===== src/Examples/Parcels.antt =====
-- A parcel as the list of its values, each four bytes wide, and runs of the codecs on it.
use sa_excutor.Common.{
  ℕ, ◌*◌, ◌/◌, ◌≡◌, refl, ap, ◌∙◌, Bool, true, false, Str, List, [], ◌∷◌, ◌++◌, Option, none, some,
  length, arith,
}
use sa_excutor.Common.Bytes.{take, drop, take-append, drop-append}
use sa_excutor.Wire.Laws.{Item, ParcelApi, IsLawful, size_of}

abbrev pub Values : Type 0
Values = List Item × List Item

abbrev step : Values → Values
step (b, []) = (b, [])
step (b, i ∷ a) = (b ++ i ∷ [], a)

abbrev tail : List Item → List Item
tail [] = []
tail (i ∷ is) = is

abbrev numbers : List Item → ℕ
numbers (Item.u32 n ∷ a) = n
numbers (Item.u64 n ∷ a) = n
numbers (Item.byte n ∷ a) = n
numbers (Item.descriptor n ∷ a) = n
numbers _ = 0

abbrev flags : List Item → Bool
flags (Item.flag b ∷ a) = b
flags _ = false

abbrev text_of : List Item → Option Str
text_of (Item.text s ∷ a) = some s
text_of _ = none

abbrev texts_of : List Item → Option (List Str)
texts_of (Item.texts ss ∷ a) = some ss
texts_of _ = none

abbrev raw_of : List Item → Option (List ℕ)
raw_of (Item.raw bs ∷ a) = some bs
raw_of _ = none

abbrev width : Item → ℕ
width _ = 4

abbrev seek : ℕ → Values → Values
seek k (b, a) = (take (k / 4) (b ++ a), drop (k / 4) (b ++ a))

abbrev pub value_list : ParcelApi
value_list = record {
  Parcel = Values;
  data_position = λ p. size_of width p.0;
  data_size = λ p. size_of width (p.0 ++ p.1);
  set_data_position = seek;
  write = λ i p. (p.0 ++ i ∷ [], tail p.1);
  read_uint32 = λ p. (numbers p.1, step p);
  read_uint64 = λ p. (numbers p.1, step p);
  read_byte = λ p. (numbers p.1, step p);
  read_bool = λ p. (flags p.1, step p);
  read_text = λ p. (text_of p.1, step p);
  read_texts = λ p. (texts_of p.1, step p);
  read_raw = λ len p. (raw_of p.1, step p);
  read_descriptor = λ p. (numbers p.1, step p);
  is_text = λ s. true;
}

size_lem : (is : List Item) → size_of width is ≡ 4 * length is
size_lem [] = refl
size_lem (i ∷ is) = omega (arith, size_lem is)

pub seek_lem :
    (p : Values) (b a b' a' : List Item)
    → p ≡ (b, a)
    → b ++ a ≡ b' ++ a'
    → seek (size_of width b') p ≡ (b', a')
seek_lem p b a b' a' e same =
    let many : length b' ≡ size_of width b' / 4 = omega (arith, size_lem b') in
    rw e (
      rw same (
        ap (λ (x : List Item). (x, drop (size_of width b' / 4) (b' ++ a')))
          (take-append (size_of width b' / 4) b' a' many)
        ∙ ap (λ (y : List Item). (b', y)) (drop-append (size_of width b' / 4) b' a' many)))

abbrev pub value_list_laws : IsLawful value_list
value_list_laws = record {
  view = λ p. p;
  width = width;
  width_u32 = λ n. refl;
  append_lem = λ i p b fits e. rw e refl;
  overwrite_lem = λ m n p b a small e. rw e refl;
  position_lem = λ p b a e. rw e refl;
  size_lem = λ p b a e. rw e refl;
  seek_lem = seek_lem;
  uint32_lem = λ n p b a e. rw e (refl, refl);
  uint64_lem = λ n p b a e. rw e (refl, refl);
  byte_lem = λ n p b a e. rw e (refl, refl);
  bool_lem = λ f p b a e. rw e (refl, refl);
  text_lem = λ s p b a e. rw e (refl, refl);
  texts_lem = λ ss p b a e. rw e (refl, refl);
  raw_lem = λ bs p b a e. rw e (refl, refl);
  descriptor_lem = λ fd p b a e. rw e (refl, refl);
}
