-- ===== src/Event/File.antt =====
-- The lines of the event file (saced/SaceEvent.cpp): tokens, and the attributes of a service. The
-- numbers of the capabilities and of the resources are arguments.
use sa_excutor.Common.{
  ℕ, zero, suc, Bool, true, false, ◌&&◌, ◌||◌, Str, codes, [], ◌∷◌, Option, none, some, nat_eq, ltb,
  str_eq, Str_eq, length, if◌then◌else◌,
}
use sa_excutor.Common.Map.{Map, find, or_else}
use sa_excutor.Common.Bytes.{drop}
use sa_excutor.Params.{
  SaceCommandParams, EventPart, add_gids, set_seclabel, set_capabilities, add_rlimits, set_boot,
  add_property,
}
use sa_excutor.Params.Text.{is_space, skip_space, scan_number, negate}
use sa_excutor.Types.{minus_one}

-- The text without the white space at its end.
unfoldable pub trim_right : Str → Str
trim_right [] = []
trim_right (c ∷ s) = elim (trim_right s) [
  | [] ↦ if is_space c then [] else c ∷ []
  | d ∷ t ↦ c ∷ d ∷ t
]

-- Its loop from the right does not look at the first character.
unfoldable pub trim_space_char : Str → Str
unfolding skip_space trim_right
trim_space_char line = elim (skip_space line) [ [] ↦ [] | c ∷ s ↦ c ∷ trim_right s ]

unfoldable pub drop_last : Str → Str
drop_last [] = []
drop_last (c ∷ s) = elim s [ [] ↦ [] | d ∷ t ↦ c ∷ drop_last s ]

pub data Token : Type 0 where
  text : Str → Str → Token
  empty thrown : Token

-- The characters of the token: a quote is written twice, since the inner loop stands at a quote
-- already, and white space ends the token.
unfoldable pub scan_token : Str → Str
scan_token [] = []
scan_token (c ∷ s) =
    let rest = scan_token s in
    if nat_eq c b'"'
    then b'"' ∷ b'"' ∷ rest
    else if nat_eq c 9 || (nat_eq c 32 || nat_eq c 10)
    then []
    else c ∷ rest

-- `next_token`: `line.erase (j, …)` at the last character that is no white space takes that
-- character too; with no such character, j is -1 and `erase` throws.
unfoldable pub token_of : Str → Token
unfolding scan_token drop
token_of [] = Token.empty
token_of (c ∷ s) = let token = scan_token (c ∷ s) in Token.text token (drop (length token) (c ∷ s))

unfoldable pub next_token : Str → Token
unfolding trim_right drop_last token_of
next_token line = elim (trim_right line) [
  | [] ↦ Token.thrown
  | c ∷ s ↦ token_of (drop_last (c ∷ s))
]

-- `stream >> s` for a string: the word and what follows it; `none` is a failure.
unfoldable pub word : Str → Str × Str
word [] = ([], [])
word (c ∷ s) = let (w, rest) = word s in if is_space c then ([], c ∷ s) else (c ∷ w, rest)

unfoldable pub extract_word : Str → Option (Str × Str)
unfolding skip_space word
extract_word s = elim (skip_space s) [ [] ↦ none | c ∷ t ↦ some (word (c ∷ t)) ]

-- `stream >> n` for an int, as its bit pattern.
unfoldable pub int_of : Str → Option (ℕ × Str)
unfolding scan_number
int_of [] = none
int_of (c ∷ s) =
    let n = scan_number (c ∷ s) in
    if n.any && ltb n.value (if n.negative then 2147483649 else 2147483648)
    then some (if n.negative then negate 4294967296 n.value else n.value, n.rest)
    else none

unfoldable pub extract_number : Str → Option (ℕ × Str)
unfolding skip_space int_of
extract_number s = int_of (skip_space s)

-- The tables from names to numbers.
pub record Tables : Type 0 where
  pub cap_map : Map Str ℕ
  pub rlimit_map : Map Str ℕ
  pub cap_size : ℕ

-- A parameter of a service that the words of a line are given to one by one. The fuel is the number
-- of characters left, and each word takes at least one.
unfoldable pub each_word :
    (Str → SaceCommandParams → SaceCommandParams) → ℕ → Str → SaceCommandParams → SaceCommandParams
unfolding extract_word
each_word f zero s p = p
each_word f (suc fuel) s p = elim (extract_word s) [
  | none ↦ p
  | some (w, rest) ↦ each_word f fuel rest (f w p)
]

unfoldable pub add_capability : Tables → Str → SaceCommandParams → SaceCommandParams
unfolding find set_capabilities
add_capability t name p = (set_capabilities (or_else minus_one (find name t.cap_map)) p).0

abbrev pub on_event : (EventPart → EventPart) → SaceCommandParams → SaceCommandParams
on_event f p = record p { event = elim p.event [ none ↦ none | some e ↦ some (f e) ] }

unfoldable pub starts_with : Str → Str → Bool
starts_with [] s = true
starts_with (c ∷ p) [] = false
starts_with (c ∷ p) (d ∷ s) = nat_eq c d && starts_with p s

-- The text before the first `c`, and the text from there on.
unfoldable pub split_at : ℕ → Str → Str × Str
split_at c [] = ([], [])
split_at c (d ∷ s) =
    let (before, rest) = split_at c s in if nat_eq c d then ([], d ∷ s) else (d ∷ before, rest)

-- The name of the property starts at the colon, and its value at the equals sign.
unfoldable pub property_trigger : Str → SaceCommandParams → SaceCommandParams
unfolding split_at add_property
property_trigger s p = elim (split_at b':' s).1 [
  | [] ↦ p
  | c ∷ t ↦ elim (split_at b'=' (c ∷ t)).1 [
    | [] ↦ p
    | e ∷ value ↦ on_event (add_property (split_at b'=' (c ∷ t)).0 (e ∷ value)) p
  ]
]

unfoldable pub add_trigger : Str → SaceCommandParams → SaceCommandParams
unfolding starts_with property_trigger set_boot
add_trigger s p =
    if starts_with (codes "property") s
    then property_trigger s p
    else if starts_with (codes "boot") s
    then on_event (set_boot true) p
    else p

-- The first number of the line goes to `soft` and the second to `hard`.
unfoldable pub add_limit : Tables → Str → SaceCommandParams → SaceCommandParams
unfolding extract_word extract_number add_rlimits find
add_limit t s p = elim (extract_word s) [
  | none ↦ p
  | some (name, s₁) ↦ elim (extract_number s₁) [
    | none ↦ p
    | some (hard, s₂) ↦ elim (extract_number s₂) [
      | none ↦ p
      | some (soft, s₃) ↦ add_rlimits (or_else minus_one (find name t.rlimit_map)) hard soft p
    ]
  ]
]

abbrev one_word :
    (Str → SaceCommandParams → SaceCommandParams) → Str → SaceCommandParams → SaceCommandParams
one_word f s p = elim (extract_word s) [ none ↦ p | some (w, rest) ↦ f w p ]

-- An attribute after its tag.
unfoldable pub set_attr : Tables → Str → Str → SaceCommandParams → SaceCommandParams
unfolding extract_word str_eq set_seclabel each_word add_capability add_gids add_trigger add_limit
set_attr t tag s p =
    if str_eq tag (codes "user")
    then one_word (λ w q. record q { uid = w }) s p
    else if str_eq tag (codes "group")
    then one_word (λ w q. record q { gid = w }) s p
    else if str_eq tag (codes "seclabel")
    then one_word set_seclabel s p
    else if str_eq tag (codes "capability")
    then each_word (add_capability t) (length s) s p
    else if str_eq tag (codes "groups")
    then each_word add_gids (length s) s p
    else if str_eq tag (codes "trigger")
    then one_word add_trigger s p
    else if str_eq tag (codes "rlimits")
    then add_limit t s p
    else p

-- `parse_service_attr`: a tag that ends the line is ignored.
unfoldable pub parse_service_attr : Tables → Str → SaceCommandParams → SaceCommandParams
unfolding extract_word set_attr
parse_service_attr t line p = elim (extract_word line) [
  | none ↦ p
  | some (tag, rest) ↦ elim rest [ [] ↦ p | c ∷ s ↦ set_attr t tag (c ∷ s) p ]
]
