-- ===== src/Params/Text.antt =====
-- The parts of the C and C++ libraries that the parameters are read and written with: `::to_string`,
-- `strtoul` in base 10, and `>>` of a string stream into integers.
use sa_excutor.Common.{
  ℕ, zero, suc, ◌+◌, ◌-◌, ◌*◌, ◌/◌, ◌%◌, Bool, true, false, ◌&&◌, ◌||◌, Str, [], ◌∷◌, ◌++◌, ltb,
  leb, nat_eq, if◌then◌else◌,
}

abbrev pub is_space : ℕ → Bool
is_space c = leb 9 c && leb c 13 || nat_eq c 32

abbrev pub is_alpha : ℕ → Bool
is_alpha c = leb 65 c && leb c 90 || leb 97 c && leb c 122

abbrev pub is_digit : ℕ → Bool
is_digit c = leb 48 c && leb c 57

-- Decimal digits; `k` + 1 is at least their number.
unfoldable pub digits : ℕ → ℕ → Str
digits zero n = (48 + n % 10) ∷ []
digits (suc k) n =
    let more = digits k (n / 10) in if ltb n 10 then (48 + n) ∷ [] else more ++ ((48 + n % 10) ∷ [])

-- A 64-bit number has at most 20 digits.
unfoldable pub to_string : ℕ → Str
unfolding digits
to_string n = digits 19 n

unfoldable pub skip_space : Str → Str
skip_space [] = []
skip_space (c ∷ s) = if is_space c then skip_space s else c ∷ s

-- The value of the digits at the front, whether there are any, and what follows them.
unfoldable pub scan_digits : ℕ → Bool → Str → ℕ × Bool × Str
scan_digits acc any [] = (acc, any, [])
scan_digits acc any (c ∷ s) =
    let rest = scan_digits (acc * 10 + (c - 48)) true s in
    if is_digit c then rest else (acc, any, c ∷ s)

unfoldable pub scan_sign : Str → Bool × Str
scan_sign [] = (false, [])
scan_sign (c ∷ s) =
    if nat_eq c b'-' then (true, s) else if nat_eq c b'+' then (false, s) else (false, c ∷ s)

-- A number as written: its sign, its absolute value, whether it has a digit, and what follows.
pub record Scan : Type 0 where
  pub negative : Bool
  pub value : ℕ
  pub any : Bool
  pub rest : Str

unfoldable pub scan_number : Str → Scan
unfolding scan_sign scan_digits
scan_number s =
    let (negative, t) = scan_sign s in
    let (value, any, rest) = scan_digits 0 false t in
    record { negative = negative; value = value; any = any; rest = rest }

-- What a number is after negation in a word of `m` values.
abbrev pub negate : ℕ → ℕ → ℕ
negate m v = (m - v) % m
