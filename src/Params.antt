-- ===== src/Params.antt =====
-- libsace/include/sace/SaceParams.h: how a command is to run, in the form that a client writes
-- (SaceCommandParams) and in the form that the daemon applies (CommandParams).
pub mod Text
pub mod Decode
pub mod RoundTrip
pub mod Trigger
use sa_excutor.Common.{
  ℕ, zero, suc, ◌-◌, Str, List, [], ◌++◌, ◌∷◌, Option, Bool, true, false, ltb, leb, length,
  if◌then◌else◌,
}
use Text.{to_string}

-- `event` is what the subclass SaceEventParams adds.
pub record EventPart : Type 0 where
  pub property_key : List Str
  pub property_value : List Str
  pub boot : Bool

pub record SaceCommandParams : Type 0 where
  pub uid : Str
  pub gid : Str
  pub supp_gids : List Str
  pub rlimits : List Str
  pub seclabel : Str
  pub capabilities : List Bool
  pub event : Option EventPart

-- The signed text of an int, and the setters of the two classes.
unfoldable pub int_to_string : ℕ → Str
int_to_string x = if ltb 2147483647 x then b'-' ∷ to_string (4294967296 - x) else to_string x

unfoldable pub set_uid : ℕ → SaceCommandParams → SaceCommandParams
set_uid uid p = record p { uid = to_string uid }

unfoldable pub set_gid : ℕ → SaceCommandParams → SaceCommandParams
set_gid gid p = record p { gid = to_string gid }

unfoldable pub add_gids : Str → SaceCommandParams → SaceCommandParams
add_gids gid p = record p { supp_gids = p.supp_gids ++ gid ∷ [] }

unfoldable pub set_seclabel : Str → SaceCommandParams → SaceCommandParams
set_seclabel seclabel p = record p { seclabel = seclabel }

set_bit : ℕ → List Bool → List Bool
set_bit i [] = []
set_bit zero (b ∷ bs) = true ∷ bs
set_bit (suc i) (b ∷ bs) = b ∷ set_bit i bs

-- The bitset's size is the length of the list.
unfoldable pub set_capabilities : ℕ → SaceCommandParams → SaceCommandParams × Bool
unfolding set_bit
set_capabilities cap p =
    if leb (length p.capabilities) cap
    then (p, false)
    else (record p { capabilities = set_bit cap p.capabilities }, true)

-- The three numbers are written with nothing between them.
unfoldable pub add_rlimits : ℕ → ℕ → ℕ → SaceCommandParams → SaceCommandParams
unfolding int_to_string
add_rlimits rlimit soft hard p = record p {
  rlimits = p.rlimits ++ (int_to_string rlimit ++ int_to_string soft ++ int_to_string hard) ∷ [];
}

-- The setters of SaceEventParams.
unfoldable pub set_boot : Bool → EventPart → EventPart
set_boot boot e = record e { boot = boot }

unfoldable pub add_property : Str → Str → EventPart → EventPart
add_property name value e = record e {
  property_key = e.property_key ++ name ∷ [];
  property_value = e.property_value ++ value ∷ [];
}
