-- ===== src/SendTx.antt =====
-- src/sendtx.rs: the transaction sender, which answers requests for transactions and announces ours.
-- The cache is the `LruCache` of a library; of it the laws say that what it gives out was put in.
-- What is sent is a list of actions; the clock is an argument.
pub mod Answers
use defiads.Prelude.{
  ℕ, ◌≡◌, refl, sym, ap, ◌∙◌, subst, Bool, true, false, not, ◌&&◌, Option, none, some, Option-cases,
  List, [], ◌∷◌, ◌++◌, ◌==◌, inl, inr, map, filter, contains, ltb, if◌then◌else◌, All, All-map,
  Bool-cases, Run, ok, panic, ◌>>=◌, Returns,
}
use defiads.World.{World}
use defiads.Wallet.{Tx, Bank}
use defiads.Outgoing.{TxOutRow, Funding, read_unconfirmed}
use defiads.Outgoing.Unconfirmed.{Sent, IsWhole, pending, read-eq-pending}

pub record Inventory : Type 0 where
  pub is_transaction : Bool
  pub hash : ℕ

-- The cache of transactions by their ids.
pub record TxCache (w : World) : Type 1 where
  pub Cache : Type 0
  pub get_mut : ℕ → Cache → Option (Tx w × Cache)
  pub contains_key : ℕ → Cache → Bool
  -- the value that was replaced
  pub insert : ℕ → Tx w → Cache → Option (Tx w) × Cache
  pub entries : Cache → List (ℕ × Tx w)
  pub get_mut-All :
      (P : ℕ × Tx w → Type 0) (hash : ℕ) (c c' : Cache) (tx : Tx w)
      → get_mut hash c ≡ some (tx, c')
      → All P (entries c)
      → P (hash, tx) × All P (entries c')
  pub insert-All :
      (P : ℕ × Tx w → Type 0) (hash : ℕ) (c : Cache) (tx : Tx w)
      → P (hash, tx)
      → All P (entries c)
      → All P (entries (insert hash tx c).1)

pub data Notice (w : World) : Type 0 where
  tx : Tx w → Notice w
  inv : List Inventory → Notice w
  get_data : List Inventory → Notice w

-- What is sent: to a peer, or to a random one.
pub data Action (w : World) : Type 0 where
  send : ℕ → Notice w → Action w
  send_random : Notice w → Action w

pub data Event (w : World) : Type 0 where
  incoming : ℕ → Notice w → Event w
  outgoing : Tx w → Event w
  ignored : Event w

module _ {w : World} (b : Bank w) (lru : TxCache w) where
  abbrev pub announcement : Tx w → Notice w
  announcement t = inv (record { is_transaction = true; hash = b.txid t } ∷ [])

  -- The hashes of the transactions.
  unfoldable pub tx_hashes : List Inventory → List ℕ
  tx_hashes [] = []
  tx_hashes (i ∷ is) = let rest = tx_hashes is in if i.is_transaction then i.hash ∷ rest else rest

  -- The loop over the hashes: what is sent, which hashes are not cached, and the cache.
  unfoldable pub serve_cached : ℕ → List ℕ → lru.Cache → List (Action w) × List ℕ × lru.Cache
  serve_cached pid [] c = ([], [], c)
  serve_cached pid (h ∷ hashes) c = elim (lru.get_mut h c) [
    | some found ↦
        let r = serve_cached pid hashes (found.1) in (send pid (tx found.0) ∷ r.0, r.1, r.2)
    | none ↦ let r = serve_cached pid hashes c in (r.0, h ∷ r.1, r.2)
  ]

  -- Our transactions that are asked for.
  unfoldable pub serve_own : ℕ → List ℕ → List (Sent w) → List (Action w)
  serve_own pid hashes [] = []
  serve_own pid hashes (s ∷ sent) =
      let rest = serve_own pid hashes sent in
      if contains hashes (b.txid s.0) then send pid (tx s.0) ∷ rest else rest

  unfoldable pub on_get_data :
      ℕ → List Inventory → List (TxOutRow w) → lru.Cache → Run (List (Action w) × lru.Cache)
  unfolding tx_hashes serve_cached serve_own
  on_get_data pid is rows c =
      let r = serve_cached pid (tx_hashes is) c in
      elim (r.1) [
        | [] ↦ ok (r.0, r.2)
        | h ∷ missing ↦
            read_unconfirmed b rows >>= λ sent. ok (r.0 ++ serve_own pid (h ∷ missing) sent, r.2)
      ]

  unfoldable pub on_inv : ℕ → List Inventory → lru.Cache → List (Action w)
  on_inv pid is c = elim (filter (λ i. i.is_transaction && not (lru.contains_key i.hash c)) is) [
    | [] ↦ []
    | i ∷ have_not ↦ send pid (get_data (i ∷ have_not)) ∷ []
  ]

  unfoldable pub on_tx : Tx w → lru.Cache → List (Action w) × lru.Cache
  on_tx t c =
      let r = lru.insert (b.txid t) t c in
      (elim (r.0) [ none ↦ send_random (announcement t) ∷ [] | some old ↦ [] ], r.1)

  -- The loop that announces ours.
  unfoldable pub announce_own : lru.Cache → List (Sent w) → List (Action w)
  announce_own c [] = []
  announce_own c (s ∷ sent) =
      let rest = announce_own c sent in
      if lru.contains_key (b.txid s.0) c then rest else send_random (announcement s.0) ∷ rest

  -- A message.
  unfoldable pub on_event :
      Event w → List (TxOutRow w) → lru.Cache → Run (List (Action w) × lru.Cache)
  unfolding on_get_data on_inv on_tx
  on_event (incoming pid (get_data is)) rows c = on_get_data pid is rows c
  on_event (incoming pid (inv is)) rows c = ok (on_inv pid is c, c)
  on_event (incoming pid (tx t)) rows c = ok (on_tx t c)
  on_event (outgoing t) rows c = ok (send_random (announcement t) ∷ [], c)
  on_event ignored rows c = ok ([], c)

  -- A round of the loop: a message, then the announcements if the last ones are over a minute old.
  unfoldable pub round :
      Event w → ℕ → List (TxOutRow w) → lru.Cache → Run (List (Action w) × lru.Cache)
  unfolding on_event announce_own
  round event since rows c = do
    r ← on_event event rows c
    elim (ltb 60 since) [
      | true ↦ read_unconfirmed b rows >>= λ sent. ok (r.0 ++ announce_own (r.1) sent, r.1)
      | false ↦ ok r
    ]

  -- Every transaction in the cache is named by its id.
  abbrev pub IsNamed : lru.Cache → Type 0
  IsNamed c = All (λ (e : ℕ × Tx w). e.0 ≡ b.txid e.1) (lru.entries c)
