-- ===== src/Tests/Starts.antt =====
-- A start with the tables of an earlier one: a wallet with one coin, a chain with a reorg.
use defiads.Prelude.{
  ℕ, ◌≡◌, ◌⊎◌, ◌≤◌, All, refl, arith, false, none, some, List, [], ◌∷◌, ok, Returns,
}
use defiads.Wallet
use defiads.Wallet.{Wallet, from_storage_all}
use defiads.Outgoing.{Outgoing, read_coins, add_coins, spend_all, read_account, find_account}
use defiads.Start.{Config, open_account, open_wallet, rescan, load_wallet, start}
use defiads.Start.Reopening.{IsFound, IsEmptied, rescan-IsEmptied, start-IsCaughtUp}
use defiads.BitcoinPeers.{catch_up}
use defiads.BitcoinPeers.Reorg.{IsCaughtUp}
use defiads.Store.Sync.{HasSketch}
use defiads.Contents.{Row}
use defiads.Tests.Stores.{world, row}
use defiads.Tests.Wallets.{bank, wallet, point, coin}
use defiads.Tests.Services.{chain, chain-IsLinked}

abbrev nothing : Outgoing bank
nothing = record { txouts = []; processed = none; coins = []; accounts = [] }

-- The tables of a new wallet with the one coin.
abbrev stored : Outgoing bank
stored = record nothing {
  coins = record { point = point; coin = coin; proof = (7, 9, 2, (200000, 7) ∷ []) } ∷ [];
  accounts =
      record { account = 1; sub = 0; keys = 1 }
      ∷ record { account = 0; sub = 1; keys = 0 }
      ∷ record { account = 0; sub = 0; keys = 0 }
      ∷ [];
}

abbrev config : Config world
config = record { apikey = []; encryptedwalletkey = []; keyroot = []; lookahead = 10; birth = 9 }

-- The time of a header is its second part.
abbrev trunk_headers : List (ℕ × ℕ)
trunk_headers = (9, 8) ∷ (9, 6) ∷ (9, 5) ∷ []

abbrev seen : Outgoing bank
seen = record stored { processed = some 6 }

rescan-IsEmptied_example :
    (All (λ h. 7 ≤ h.1) trunk_headers
      × (rescan bank (λ h. h.1) 7 trunk_headers (wallet, seen) ≡ (wallet, seen)))
    ⊎ ((c : IsFound bank (λ h. h.1) 7 trunk_headers) × IsEmptied bank
          (c.first)
          (wallet, seen)
          (rescan bank (λ h. h.1) 7 trunk_headers (wallet, seen)))
rescan-IsEmptied_example = rescan-IsEmptied bank (λ h. h.1) 7 trunk_headers wallet seen 6 refl

abbrev opened_wallet : Wallet bank
opened_wallet = record { coins = wallet.coins; master = 0 ∷ 1 ∷ 0 ∷ [] }

loads : load_wallet bank 0 (some config) wallet seen ≡ ok (opened_wallet, seen, 9)
unfolding load_wallet open_wallet open_account read_account find_account read_coins add_coins
    spend_all Wallet.from_storage from_storage_all
loads = refl

-- A row that a block off the trunk confirmed.
abbrev side_rows : List (Row world)
side_rows = record row { block_id = 6 } ∷ []

start-IsCaughtUp_example :
    Returns
      (start bank 0 (some config) 1 false (λ h. h.1) trunk_headers wallet side_rows [] seen)
      λ l.
        (l.store.rows ≡ side_rows)
        × HasSketch world l.store
        × ◌≡◌ {A = Wallet bank × Outgoing bank} (l.wallet, l.out) (opened_wallet, seen)
        × Returns (catch_up bank chain 5 l) (IsCaughtUp bank chain 6 l)
start-IsCaughtUp_example =
    start-IsCaughtUp bank chain 0 (some config) 1 false (λ h. h.1) trunk_headers wallet
      opened_wallet side_rows [] seen seen 9 6 1 5 (9, 6) chain-IsLinked (tt, tt) loads refl refl
      (omega arith)
