-- ===== src/Common/Bytes.antt =====
-- Memory images: little-endian numbers and fixed-size buffers.
use Prim.Native.Nat.{ℕ, zero, suc, ◌+◌, ◌*◌, ◌/◌, ◌%◌, ◌^◌, ◌<◌}
use mathlib.Core.Path.{◌≡◌, refl, ap}
use mathlib.Core.List.{List, [], ◌∷◌, ◌++◌}
use native.Mathlib.Omega.{arith}
use native.Mathlib.Nat.{pow-succ'}
use sa_excutor.Common.Lists.{length}

-- The `k` low bytes of a number, lowest first.
unfoldable pub le_bytes : ℕ → ℕ → List ℕ
le_bytes zero n = []
le_bytes (suc k) n = (n % 256) ∷ le_bytes k (n / 256)

unfoldable pub of_le_bytes : List ℕ → ℕ
of_le_bytes [] = 0
of_le_bytes (b ∷ bs) = b + 256 * of_le_bytes bs

pub length-le_bytes : (k n : ℕ) → length (le_bytes k n) ≡ k
unfolding le_bytes
length-le_bytes zero n = refl
length-le_bytes (suc k) n = ap suc (length-le_bytes k (n / 256))

pub of_le_bytes-le_bytes : (k n : ℕ) → n < 256 ^ k → of_le_bytes (le_bytes k n) ≡ n
unfolding le_bytes of_le_bytes
of_le_bytes-le_bytes zero n h = omega arith
of_le_bytes-le_bytes (suc k) n h =
    let fits : n < 256 * 256 ^ k = rw pow-succ' at h in
    let rest = of_le_bytes-le_bytes k (n / 256) (omega arith) in omega arith

module _ {ℓ} {A : Type ℓ} where
  unfoldable pub take : ℕ → List A → List A
  take zero xs = []
  take (suc n) [] = []
  take (suc n) (x ∷ xs) = x ∷ take n xs

  unfoldable pub drop : ℕ → List A → List A
  drop zero xs = xs
  drop (suc n) [] = []
  drop (suc n) (x ∷ xs) = drop n xs

  unfoldable pub replicate : ℕ → A → List A
  replicate zero a = []
  replicate (suc n) a = a ∷ replicate n a

  pub length-replicate : (n : ℕ) (a : A) → length (replicate n a) ≡ n
  unfolding replicate
  length-replicate zero a = refl
  length-replicate (suc n) a = ap suc (length-replicate n a)

  pub take-append : (n : ℕ) (xs ys : List A) → length xs ≡ n → take n (xs ++ ys) ≡ xs
  unfolding take
  take-append zero [] ys h = refl
  take-append zero (x ∷ xs) ys h = absurd (omega arith)
  take-append (suc n) [] ys h = absurd (omega arith)
  take-append (suc n) (x ∷ xs) ys h = ap (◌∷◌ x) (take-append n xs ys (omega arith))

  pub drop-append : (n : ℕ) (xs ys : List A) → length xs ≡ n → drop n (xs ++ ys) ≡ ys
  unfolding drop
  drop-append zero [] ys h = refl
  drop-append zero (x ∷ xs) ys h = absurd (omega arith)
  drop-append (suc n) [] ys h = absurd (omega arith)
  drop-append (suc n) (x ∷ xs) ys h = drop-append n xs ys (omega arith)
