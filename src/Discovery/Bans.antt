-- ===== src/Discovery/Bans.antt =====
-- Where a ban is noted: in another network than the one whose peers are drawn.
use defiads.Prelude.{ℕ, ◌≡◌, Bool, true, false, Option, none, some, List}
use defiads.World.{World}
use defiads.Addresses.{AddressRow, Addresses, same_bytes}
use defiads.Discovery.{Discovery}

module _ (m n : List ℕ) (apart : same_bytes n m ≡ false) where
  -- The row that is written, if any, is one of the first network.
  abbrev IsOf : Option AddressRow → Type 0
  IsOf none = Unit
  IsOf (some r) = same_bytes m r.network ≡ true
