-- ===== src/Service/Image.antt =====
-- The memory image of a ServiceInfo, as SaceServiceManager reads it back.
use sa_excutor.Common.{
  ℕ, zero, suc, ◌+◌, ◌-◌, ◌≤◌, ◌<◌, ◌^◌, ◌≡◌, refl, ap, ◌∙◌, false, Str, List, [], ◌∷◌, ◌++◌,
  length, length-append, All, arith, nat_eq,
}
use sa_excutor.Common.Bytes.{
  le_bytes, of_le_bytes, length-le_bytes, of_le_bytes-le_bytes, take, drop, replicate,
  length-replicate, take-append, drop-append,
}
use sa_excutor.Service.Info.{ServiceImage, strncpy, c_str, image, of_image, extra_bufer_len}

take-all : (n : ℕ) (xs : List ℕ) → length xs ≤ n → take n xs ≡ xs
unfolding take
take-all zero [] h = refl
take-all zero (x ∷ xs) h = absurd (omega arith)
take-all (suc n) [] h = refl
take-all (suc n) (x ∷ xs) h = ap (◌∷◌ x) (take-all n xs (omega arith))

length-take : (n : ℕ) (xs : List ℕ) → n ≤ length xs → length (take n xs) ≡ n
unfolding take
length-take zero xs h = refl
length-take (suc n) [] h = absurd (omega arith)
length-take (suc n) (x ∷ xs) h = ap suc (length-take n xs (omega arith))

take-le : (n : ℕ) (xs : List ℕ) → length (take n xs) ≤ n
unfolding take
take-le zero xs = omega arith
take-le (suc n) [] = omega arith
take-le (suc n) (x ∷ xs) = omega (arith, take-le n xs)

-- No byte of the text is zero.
abbrev pub ZeroFree : Str → Type 0
ZeroFree = All (λ c. nat_eq c 0 ≡ false)

ZeroFree-take : (n : ℕ) (s : Str) → ZeroFree s → ZeroFree (take n s)
unfolding take
ZeroFree-take zero s h = tt
ZeroFree-take (suc n) [] h = tt
ZeroFree-take (suc n) (c ∷ s) h = (h.0, ZeroFree-take n s h.1)

c_str-padded :
    (n m : ℕ) (s : Str) → ZeroFree s → length s < n → c_str (take n (s ++ replicate (suc m) 0)) ≡ s
unfolding take replicate c_str
c_str-padded zero m s h short = absurd (omega arith)
c_str-padded (suc n) m [] h short = refl
c_str-padded (suc n) m (c ∷ s) h short = rw h.0 (ap (◌∷◌ c) (c_str-padded n m s h.1 (omega arith)))

length-strncpy : (n : ℕ) (s : Str) → length (strncpy n s) ≡ n
unfolding strncpy
length-strncpy n s =
    let total = length-append (take (n - 1) s) (replicate n 0) in
    let padding = length-replicate {A = ℕ} n 0 in
    length-take n (take (n - 1) s ++ replicate n 0) (omega (arith, total, padding))

c_str-strncpy : (n : ℕ) (s : Str) → ZeroFree s → c_str (strncpy (suc n) s) ≡ take n s
unfolding strncpy
c_str-strncpy n s h =
    let exact : suc n - 1 ≡ n = omega arith in
    rw exact (c_str-padded (suc n) n (take n s) (ZeroFree-take n s h) (omega (arith, take-le n s)))

drop-past : (k n : ℕ) (xs ys : List ℕ) → k ≡ length xs + n → drop k (xs ++ ys) ≡ drop n ys
unfolding drop
drop-past k n [] ys h = let same : k ≡ n = omega arith in rw same refl
drop-past zero n (x ∷ xs) ys h = absurd (omega arith)
drop-past (suc k) n (x ∷ xs) ys h = drop-past k n xs ys (omega arith)

-- The five parts of the struct, whatever bytes they hold.
module _ (name cmd state padding label : List ℕ) (n : length name ≡ 64) (c : length cmd ≡ 128)
    (s : length state ≡ 4) (p : length padding ≡ 4) (l : length label ≡ 8) where
  abbrev parts : List ℕ
  parts = name ++ (cmd ++ (state ++ (padding ++ label)))

  fits : take 256 parts ≡ parts
  fits = take-all 256 parts (
      omega (
        arith,
        length-append name (cmd ++ (state ++ (padding ++ label))),
        length-append cmd (state ++ (padding ++ label)),
        length-append state (padding ++ label),
        length-append padding label,
      ))

  past_name : drop 64 parts ≡ cmd ++ (state ++ (padding ++ label))
  past_name = drop-append 64 name (cmd ++ (state ++ (padding ++ label))) n

  past_cmd : drop 192 parts ≡ state ++ (padding ++ label)
  past_cmd =
      drop-past 192 128 name (cmd ++ (state ++ (padding ++ label))) (omega arith)
      ∙ drop-append 128 cmd (state ++ (padding ++ label)) c

  past_padding : drop 200 parts ≡ label
  past_padding =
      drop-past 200 136 name (cmd ++ (state ++ (padding ++ label))) (omega arith)
      ∙ drop-past 136 8 cmd (state ++ (padding ++ label)) (omega arith)
      ∙ drop-past 8 4 state (padding ++ label) (omega arith)
      ∙ drop-append 4 padding label p

  of_image-parts : of_image (take 256 parts) ≡ record {
    name = c_str name;
    cmd = c_str cmd;
    state = of_le_bytes state;
    label = of_le_bytes label;
  }
  unfolding of_image
  of_image-parts =
      rw
        (
          fits,
          past_name,
          past_cmd,
          past_padding,
          take-append 64 name (cmd ++ (state ++ (padding ++ label))) n,
          take-append 128 cmd (state ++ (padding ++ label)) c,
          take-append 4 state (padding ++ label) s,
          take-all 8 label (omega arith),
        )
        refl

-- A name and a command without zero bytes, a state code below 2^32 and a label below 2^64: from
-- the image in the 256 bytes of a result, the reader gets the label and the state, and the first 63
-- bytes of the name and 127 of the command.
pub of_image-image :
    (i : ServiceImage)
    → ZeroFree i.name
    → ZeroFree i.cmd
    → i.state < 2 ^ 32
    → i.label < 2 ^ 64
    → of_image (take extra_bufer_len (image i))
      ≡ record { name = take 63 i.name; cmd = take 127 i.cmd; state = i.state; label = i.label }
unfolding image
of_image-image i n c s l =
    of_image-parts (strncpy 64 i.name) (strncpy 128 i.cmd) (le_bytes 4 i.state) (replicate 4 0)
      (le_bytes 8 i.label) (length-strncpy 64 i.name) (length-strncpy 128 i.cmd)
      (length-le_bytes 4 i.state) (length-replicate {A = ℕ} 4 0) (length-le_bytes 8 i.label)
    ∙ rw
        (
          c_str-strncpy 63 i.name n,
          c_str-strncpy 127 i.cmd c,
          of_le_bytes-le_bytes 4 i.state s,
          of_le_bytes-le_bytes 8 i.label l,
        )
        refl
