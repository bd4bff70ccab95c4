-- ===== src/Sender/Delivered.antt =====
-- From the daemon to the caller: what the daemon writes is what the sender's thread enters.
use sa_excutor.Common.{ℕ, List}
use sa_excutor.Types.{SaceResult}
use sa_excutor.Wire.Laws.{Item, ParcelApi, IsLawful}
use sa_excutor.Wire.Result.Layout.{result_items}
use sa_excutor.Sender.{Sender}

module _ (api : ParcelApi) (laws : IsLawful api) where
  -- The values after the header of a result.
  abbrev body : ℕ → SaceResult → List Item
  body unset r = result_items unset r
