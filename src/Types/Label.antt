-- ===== src/Types/Label.antt =====
-- The label macros of libsace/include/sace/SaceTypes.h, and 32-bit integers as bit patterns.
-- The two halves of a label share no bit, so `|` is written as a sum.
use sa_excutor.Common.{ℕ, ◌+◌, ◌*◌, ◌%◌, ◌<◌, ◌≡◌, ◌↔◌, Bool, leb, arith}

abbrev pub u32_mod : ℕ
u32_mod = 4294967296

abbrev pub u64_mod : ℕ
u64_mod = 18446744073709551616

-- The pattern of -1, and the sign of a pattern.
abbrev pub minus_one : ℕ
minus_one = 4294967295

abbrev pub is_negative : ℕ → Bool
is_negative x = leb 2147483648 x

unfoldable pub sequence_to_label : ℕ → ℕ → ℕ
sequence_to_label x y = x % u32_mod + y % u32_mod * u32_mod

unfoldable pub label_to_sequence : ℕ → ℕ
label_to_sequence x = x % u64_mod % u32_mod

-- A label is a 64-bit number that gives back the low 32 bits of the sequence, and two labels are
-- equal exactly when the sequences and the addresses agree in their low 32 bits.
pub label_lem :
    (x y x' y' : ℕ)
    → (sequence_to_label x y < u64_mod)
      × (label_to_sequence (sequence_to_label x y) ≡ x % u32_mod)
      × ((sequence_to_label x y ≡ sequence_to_label x' y')
          ↔ ((x % u32_mod ≡ x' % u32_mod) × (y % u32_mod ≡ y' % u32_mod)))
unfolding sequence_to_label label_to_sequence
label_lem x y x' y' = (omega arith, omega arith, (λ e. omega arith, λ e. omega arith))
