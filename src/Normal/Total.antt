-- ===== src/Normal/Total.antt =====
-- `excuteNormal` of SaceNormalExcutor, and its tables.
use sa_excutor.Common.{◌≡◌, ℕ_eq, Run, done}
use sa_excutor.Normal.{State}
use sa_excutor.Normal.Invariant.{Inv}

abbrev pub ReturnsInv : Run State → Type 0
ReturnsInv r = (s' : State) × (r ≡ done s') × Inv s'
