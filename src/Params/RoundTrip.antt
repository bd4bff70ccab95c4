-- ===== src/Params/RoundTrip.antt =====
-- What the daemon reads back of the parameters that a client writes.
use native.Mathlib.Nat.{pow-succ'}
use sa_excutor.Common.{
  ℕ, zero, suc, ◌+◌, ◌-◌, ◌*◌, ◌/◌, ◌%◌, ◌^◌, ◌<◌, ◌≡◌, refl, ◌∙◌, Bool, true, false, Str, [], ◌∷◌,
  ◌++◌, arith, All, Bool-cases, inl, inr, ltb,
}
use sa_excutor.Params.{SaceCommandParams, set_uid, set_gid}
use sa_excutor.Params.Text.{
  is_digit, digits, to_string, skip_space, scan_digits, scan_sign, scan_number,
}
use sa_excutor.Params.Decode.{Platform, Rlimit, strtoul, decode_uid, parse_command_params}

abbrev AllDigits : Str → Type 0
AllDigits = All (λ c. is_digit c ≡ true)

AllDigits-append : (s t : Str) → AllDigits s → AllDigits t → AllDigits (s ++ t)
AllDigits-append [] t hs ht = ht
AllDigits-append (c ∷ s) t hs ht = (hs.0, AllDigits-append s t hs.1 ht)

-- The value of a text of digits, in front of which `acc` has been read.
unfoldable pub value : ℕ → Str → ℕ
value acc [] = acc
value acc (c ∷ s) = value (acc * 10 + (c - 48)) s

value-append : (acc d : ℕ) (s : Str) → value acc (s ++ d ∷ []) ≡ value acc s * 10 + (d - 48)
unfolding value
value-append acc d [] = refl
value-append acc d (c ∷ s) = value-append (acc * 10 + (c - 48)) d s

digits-AllDigits : (k n : ℕ) → AllDigits (digits k n)
unfolding digits
digits-AllDigits zero n = (ground arith, tt)
digits-AllDigits (suc k) n = elim (Bool-cases (ltb n 10)) [
  | inl small ↦ rw small (ground arith, tt)
  | inr large ↦
      rw large
        (AllDigits-append (digits k (n / 10)) _ (digits-AllDigits k (n / 10)) (ground arith, tt))
]

value-digits : (k n : ℕ) → n < 10 ^ suc k → value 0 (digits k n) ≡ n
unfolding digits value
value-digits zero n h = omega arith
value-digits (suc k) n h = elim (Bool-cases (ltb n 10)) [
  | inl small ↦ rw small (omega arith)
  | inr large ↦ rw large (
      value-append 0 (48 + n % 10) (digits k (n / 10))
      ∙ omega (
        arith,
        value-digits k (n / 10) (let fits : n < 10 * 10 ^ suc k = rw pow-succ' at h in omega arith),
      ))
]

scan_digits_value :
    (acc : ℕ) (any : Bool) (c : ℕ) (s : Str)
    → AllDigits (c ∷ s)
    → scan_digits acc any (c ∷ s) ≡ (value acc (c ∷ s), true, [])
unfolding scan_digits value
scan_digits_value acc any c [] h = ground arith
scan_digits_value acc any c (d ∷ s) h =
    ground (arith, scan_digits_value (acc * 10 + (c - 48)) true d s h.1)

strtoul_digits :
    (p : Platform) (c : ℕ) (s : Str)
    → AllDigits (c ∷ s)
    → value 0 (c ∷ s) < 4294967296
    → (old : ℕ) → decode_uid p (c ∷ s) old ≡ (true, value 0 (c ∷ s))
unfolding decode_uid strtoul scan_sign skip_space scan_number
strtoul_digits p c s h small old = ground (arith, scan_digits_value 0 false c s h)

-- A text of digits is never empty.
digits_cons : (k n : ℕ) → (c : ℕ) × (s : Str) × (digits k n ≡ c ∷ s)
unfolding digits
digits_cons zero n = (48 + n % 10, [], refl)
digits_cons (suc k) n = elim (Bool-cases (ltb n 10)) [
  | inl small ↦ (48 + n, [], rw small)
  | inr large ↦
      let (c, s, e) = digits_cons k (n / 10) in (c, s ++ (48 + n % 10) ∷ [], rw (large, e))
]

decode_uid-to_string :
    (p : Platform) (n old : ℕ) → n < 4294967296 → decode_uid p (to_string n) old ≡ (true, n)
unfolding to_string
decode_uid-to_string p n old h =
    let (c, s, e) = digits_cons 19 n in
    let v : value 0 (c ∷ s) ≡ n = rw (← e) (value-digits 19 n (omega arith)) in
    rw e (strtoul_digits p c s (rw e at (digits-AllDigits 19 n)) (rw v h) old ∙ rw v)

-- A uid and a gid that a client sets by number, below 2^32, are the ones that the daemon applies.
pub parse-set_uid-set_gid :
    (p : Platform) (garbage : ℕ) (limit : Rlimit) (c : SaceCommandParams) (uid gid : ℕ)
    → uid < 4294967296
    → gid < 4294967296
    → let r = parse_command_params p garbage limit (set_gid gid (set_uid uid c)) in
      (r.uid ≡ uid) × (r.gid ≡ gid)
unfolding parse_command_params set_uid set_gid
parse-set_uid-set_gid p garbage limit c uid gid hu hg =
    (rw (decode_uid-to_string p uid 0 hu), rw (decode_uid-to_string p gid 0 hg))
