-- ===== src/Trunk.antt =====
-- The trait `Trunk` of src/trunk.rs, the longest chain of headers as the store sees it, and its
-- implementation `ChainDBTrunk` of src/p2p_defiads.rs over murmel's header cache.
use defiads.Prelude.{ℕ, Bool, true, false, Option, none, some}
use defiads.World.{World}

pub record Trunk (w : World) : Type 0 where
  pub is_on_trunk : ℕ → Bool
  pub get_header : ℕ → Option w.Header
  pub get_header_for_height : ℕ → Option w.Header
  pub get_height : ℕ → Option ℕ
  pub get_tip : Option w.Header
  pub len : ℕ

-- The queries of `murmel::chaindb::ChainDB` that the program makes; a cached header comes with its
-- height.
pub record ChainDb (w : World) : Type 0 where
  pub pos_on_trunk : ℕ → Option ℕ
  pub get_header : ℕ → Option (w.Header × ℕ)
  pub get_header_for_height : ℕ → Option (w.Header × ℕ)
  pub header_tip : Option (w.Header × ℕ)

module _ (w : World) where
  abbrev header_of : Option (w.Header × ℕ) → Option w.Header
  header_of none = none
  header_of (some c) = some (c.0)

  -- `len` is the height of the tip, and 0 with no tip.
  unfoldable pub chain_db_trunk : ChainDb w → Trunk w
  chain_db_trunk db = record {
    is_on_trunk = λ h. elim (db.pos_on_trunk h) [ none ↦ false | some _ ↦ true ];
    get_header = λ h. header_of (db.get_header h);
    get_header_for_height = λ n. header_of (db.get_header_for_height n);
    get_height = db.pos_on_trunk;
    get_tip = header_of db.header_tip;
    len = elim (db.header_tip) [ none ↦ 0 | some c ↦ c.1 ];
  }
