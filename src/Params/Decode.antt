-- ===== src/Params/Decode.antt =====
-- libsace/SaceParams.cpp: `decode_uid` and `parseCommandParams`.
-- `getpwnam`, and whether `strtoul` sets errno on a text with no digits, belong to the platform.
use sa_excutor.Common.{
  ℕ, ◌%◌, ◌≡◌, refl, Bool, true, false, not, Str, List, [], ◌∷◌, Option, none, some, arith, ltb,
  if◌then◌else◌, All,
}
use sa_excutor.Params.{SaceCommandParams}
use sa_excutor.Params.Text.{is_alpha, skip_space, scan_number, negate}

pub record Platform : Type 0 where
  pub getpwnam : Str → Option ℕ
  pub strtoul_needs_digits : Bool

pub record Rlimit : Type 0 where
  pub resource : ℕ
  pub rlim_cur : ℕ
  pub rlim_max : ℕ

pub record CommandParams : Type 0 where
  pub uid : ℕ
  pub gid : ℕ
  pub supp_gids : List ℕ
  pub rlimits : List Rlimit
  pub seclabel : Str
  pub capabilities : List Bool

abbrev pub def_uid : ℕ
def_uid = 1000

abbrev pub def_gid : ℕ
def_gid = 1000

abbrev pub u32 : ℕ → ℕ
u32 n = n % 4294967296

-- `strtoul (s, nullptr, 10)`: the value, and whether errno is set.
unfoldable pub strtoul : Platform → Str → ℕ × Bool
unfolding skip_space scan_number
strtoul p s =
    let n = scan_number (skip_space s) in
    if not n.any
    then (0, p.strtoul_needs_digits)
    else if ltb 18446744073709551615 n.value
    then (18446744073709551615, true)
    else if n.negative
    then (negate 18446744073709551616 n.value, false)
    else (n.value, false)

-- Whether the text was decoded, and what `*uid` holds afterwards; `old` is what it held.
unfoldable pub decode_uid : Platform → Str → ℕ → Bool × ℕ
unfolding strtoul
decode_uid p [] old = (false, old)
decode_uid p (c ∷ s) old =
    if is_alpha c
    then elim (p.getpwnam (c ∷ s)) [ none ↦ (false, old) | some uid ↦ (true, uid) ]
    else (let (value, errno) = strtoul p (c ∷ s) in (not errno, u32 value))

-- The loop over `supp_gids`, with the value of the variable `supp_gid`.
unfoldable pub parse_supp_gids : Platform → ℕ → List Str → List ℕ
parse_supp_gids p supp_gid [] = []
parse_supp_gids p supp_gid (g ∷ gs) =
    let (decoded, now) = decode_uid p g supp_gid in
    let rest = parse_supp_gids p now gs in if not decoded then now ∷ rest else rest

-- A string stream: the text left, and whether the next extraction fails at once.
pub record Stream : Type 0 where
  pub text : Str
  pub over : Bool

abbrev is_empty : Str → Bool
is_empty [] = true
is_empty (c ∷ s) = false

-- `stream >> x` for an integer with values up to `max`, and down to `-low`, in words of `m` values.
extract_text : ℕ → ℕ → ℕ → ℕ → Str → ℕ × Stream
unfolding scan_number
extract_text m max low old [] = (old, record { text = []; over = true })
extract_text m max low old (c ∷ s) =
    let n = scan_number (c ∷ s) in
    if not n.any
    then (0, record { text = n.rest; over = true })
    else if n.negative
    then (if ltb low n.value
        then (negate m low, record { text = n.rest; over = true })
        else (negate m n.value, record { text = n.rest; over = is_empty n.rest }))
    else if ltb max n.value
    then (max, record { text = n.rest; over = true })
    else (n.value, record { text = n.rest; over = is_empty n.rest })

unfoldable pub extract : ℕ → ℕ → ℕ → ℕ → Stream → ℕ × Stream
unfolding skip_space extract_text
extract m max low old s =
    if s.over then (old, s) else extract_text m max low old (skip_space s.text)

abbrev pub extract_int : ℕ → Stream → ℕ × Stream
extract_int = extract 4294967296 2147483647 2147483648

-- rlim_t is an unsigned 64-bit word: a minus sign negates in that word.
abbrev pub extract_rlim : ℕ → Stream → ℕ × Stream
extract_rlim = extract 18446744073709551616 18446744073709551615 18446744073709551615

-- One text into the variables `resource` and `limit`, which keep what is not extracted.
unfoldable pub parse_rlimit : Rlimit → Str → Rlimit
unfolding extract
parse_rlimit r text =
    let (resource, s) = extract_int r.resource (record { text = text; over = false }) in
    let (cur, s') = extract_rlim r.rlim_cur s in
    let (max, s'') = extract_rlim r.rlim_max s' in
    record { resource = resource; rlim_cur = cur; rlim_max = max }

unfoldable pub parse_rlimits : Rlimit → List Str → List Rlimit
parse_rlimits r [] = []
parse_rlimits r (t ∷ ts) = let now = parse_rlimit r t in now ∷ parse_rlimits now ts

-- `parseCommandParams`; `gid` and `limit` are what the uninitialised locals hold.
unfoldable pub parse_command_params : Platform → ℕ → Rlimit → SaceCommandParams → CommandParams
unfolding decode_uid parse_supp_gids parse_rlimits parse_rlimit
parse_command_params p gid limit c =
    let (uid_ok, uid) = decode_uid p c.uid 0 in
    let (gid_ok, own_gid) = decode_uid p c.gid 0 in
    record {
      uid = if uid_ok then uid else def_uid;
      gid = if gid_ok then own_gid else def_gid;
      supp_gids = parse_supp_gids p gid c.supp_gids;
      rlimits = parse_rlimits limit c.rlimits;
      seclabel = c.seclabel;
      capabilities = c.capabilities;
    }

-- Whether a text names a user or group.
abbrev pub Decodes : Platform → Str → Type 0
Decodes p g = (old : ℕ) → (decode_uid p g old).0 ≡ true

-- If every supplementary group of a command decodes, whatever the variable holds before, none is
-- kept.
pub supp_gids_dropped :
    (p : Platform) (gid : ℕ) (limit : Rlimit) (c : SaceCommandParams)
    → All (Decodes p) c.supp_gids
    → (parse_command_params p gid limit c).supp_gids ≡ []
unfolding parse_command_params
supp_gids_dropped p gid limit c h = parse_supp_gids_none p gid c.supp_gids h
  where
    parse_supp_gids_none :
        (p : Platform) (gid : ℕ) (gs : List Str)
        → All (Decodes p) gs
        → parse_supp_gids p gid gs ≡ []
    parse_supp_gids_none p gid [] h = refl
    parse_supp_gids_none p gid (g ∷ gs) h =
        ground (arith, h.0 gid, parse_supp_gids_none p (decode_uid p g gid).1 gs h.1)
