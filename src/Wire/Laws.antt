-- ===== src/Wire/Laws.antt =====
-- The Parcel of the platform: typed values one after another, and a position among them.
use sa_excutor.Common.{
  ℕ, ◌+◌, ◌<◌, ◌≡◌, Bool, true, Str, List, [], ◌∷◌, ◌++◌, Option, some, length, All,
}
use sa_excutor.Types.{u32_mod, u64_mod}

-- A value as one of the write functions takes it.
pub data Item : Type 0 where
  u32 u64 byte : ℕ → Item
  flag : Bool → Item
  text : Str → Item
  texts : List Str → Item
  raw : List ℕ → Item
  descriptor : ℕ → Item

-- `write` stands for writeUint32, writeUint64, writeByte, writeBool, writeUtf8AsUtf16,
-- writeUtf8VectorAsUtf16Vector, write and writeFileDescriptor. A read that fails with a status is
-- `none`, and leaves its output argument alone.
pub record ParcelApi : Type 1 where
  pub Parcel : Type 0
  pub data_position : Parcel → ℕ
  pub data_size : Parcel → ℕ
  pub set_data_position : ℕ → Parcel → Parcel
  pub write : Item → Parcel → Parcel
  pub read_uint32 : Parcel → ℕ × Parcel
  pub read_uint64 : Parcel → ℕ × Parcel
  pub read_byte : Parcel → ℕ × Parcel
  pub read_bool : Parcel → Bool × Parcel
  pub read_text : Parcel → Option Str × Parcel
  pub read_texts : Parcel → Option (List Str) × Parcel
  pub read_raw : ℕ → Parcel → Option (List ℕ) × Parcel
  pub read_descriptor : Parcel → ℕ × Parcel
  pub is_text : Str → Bool

-- The value fits the width that it is written with; `is_text` tells well-formed UTF-8.
abbrev pub Fits : ParcelApi → Item → Type 0
Fits api (Item.u32 n) = n < u32_mod
Fits api (Item.u64 n) = n < u64_mod
Fits api (Item.byte n) = n < 256
Fits api (Item.flag b) = Unit
Fits api (Item.text s) = api.is_text s ≡ true
Fits api (Item.texts ss) = All (λ s. api.is_text s ≡ true) ss
Fits api (Item.raw bs) = length bs < 2147483648
Fits api (Item.descriptor fd) = Unit

abbrev pub size_of : (Item → ℕ) → List Item → ℕ
size_of width [] = 0
size_of width (i ∷ is) = width i + size_of width is

-- A read gives `v` and moves the position past the item `i`.
abbrev pub ReadsItem :
    {P V : Type 0} → (P → List Item × List Item) → (P → V × P) → Item → V → Type 0
ReadsItem {P} view read i v =
    (p : P) (b a : List Item)
    → view p ≡ (b, i ∷ a)
    → ((read p).0 ≡ v) × (view (read p).1 ≡ (b ++ i ∷ [], a))

-- What the code relies on: `view` are the values before and after the position. At the end a write
-- appends; a 32-bit word is written over another; a position is the number of bytes before it.
pub record IsLawful (api : ParcelApi) : Type 0 where
  pub view : api.Parcel → List Item × List Item
  pub width : Item → ℕ
  pub width_u32 : (n : ℕ) → width (Item.u32 n) ≡ 4
  pub append_lem :
      (i : Item) (p : api.Parcel) (b : List Item)
      → Fits api i
      → view p ≡ (b, [])
      → view (api.write i p) ≡ (b ++ i ∷ [], [])
  pub overwrite_lem :
      (m n : ℕ) (p : api.Parcel) (b a : List Item)
      → n < u32_mod
      → view p ≡ (b, Item.u32 m ∷ a)
      → view (api.write (Item.u32 n) p) ≡ (b ++ Item.u32 n ∷ [], a)
  pub position_lem :
      (p : api.Parcel) (b a : List Item) → view p ≡ (b, a) → api.data_position p ≡ size_of width b
  pub size_lem :
      (p : api.Parcel) (b a : List Item)
      → view p ≡ (b, a)
      → api.data_size p ≡ size_of width (b ++ a)
  pub seek_lem :
      (p : api.Parcel) (b a b' a' : List Item)
      → view p ≡ (b, a)
      → b ++ a ≡ b' ++ a'
      → view (api.set_data_position (size_of width b') p) ≡ (b', a')
  pub uint32_lem : (n : ℕ) → ReadsItem view api.read_uint32 (Item.u32 n) n
  pub uint64_lem : (n : ℕ) → ReadsItem view api.read_uint64 (Item.u64 n) n
  pub byte_lem : (n : ℕ) → ReadsItem view api.read_byte (Item.byte n) n
  pub bool_lem : (b : Bool) → ReadsItem view api.read_bool (Item.flag b) b
  pub text_lem : (s : Str) → ReadsItem view api.read_text (Item.text s) (some s)
  pub texts_lem : (ss : List Str) → ReadsItem view api.read_texts (Item.texts ss) (some ss)
  pub raw_lem : (bs : List ℕ) → ReadsItem view (api.read_raw (length bs)) (Item.raw bs) (some bs)
  pub descriptor_lem : (fd : ℕ) → ReadsItem view api.read_descriptor (Item.descriptor fd) fd
