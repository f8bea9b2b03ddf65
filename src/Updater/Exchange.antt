-- ===== src/Updater/Exchange.antt =====
-- The answer to the table of an honest peer.
use defiads.Prelude.{
  ℕ, ◌≡◌, refl, ◌∙◌, Option, none, some, List, [], ◌∷◌, map, length, length-replicate, ok, ◌>>=◌,
}
use defiads.World.{World}
use defiads.Trunk.{Trunk}
use defiads.Keys.{ContentKey, content_key}
use defiads.IbltKey.{IbltKey}
use defiads.Iblt.{Iblt, Entry, inserted, delete_all, default_bucket}
use defiads.Iblt.Entries.{after}
use defiads.Iblt.Updates.{length-update_all}
use defiads.Iblt.Order.{after_all}
use defiads.IbltIterator
use defiads.IbltIterator.{Decoded}
use defiads.IbltIterator.Replay.{Replays}
use defiads.Contents.{Row, ids, compute_content_iblt}
use defiads.Store.{Store}
use defiads.Store.Tables.{table, empty_table}
use defiads.Store.Sync.{IsSynced}
use defiads.Updater.{Action, Updater, received, reply_iblt, request}

length-after_all :
    {K : Type 0} ⦃key : IbltKey K⦄ (t : Iblt K) (es : List (Entry K))
    → length (after_all t es).buckets ≡ length t.buckets
unfolding after
length-after_all t [] = refl
length-after_all t (e ∷ es) = length-after_all (after t e) es ∙ length-update_all _ _ t.buckets

module _ (w : World) where
  pub length-table : (size : ℕ) (xs : List ContentKey) → length (table w size xs).buckets ≡ size
  length-table size xs =
      length-after_all ⦃key = content_key w.sip⦄ (empty_table w size) (map inserted xs)
      ∙ length-replicate size (default_bucket ⦃key = content_key w.sip⦄)

  -- What the handler answers, from the entries that it decoded.
  abbrev Answered :
      ℕ → Updater w → Option (Decoded ContentKey) → Option (List (Action w) × Updater w) → Type 0
  Answered pid u none r = r ≡ none
  Answered pid u (some d) r =
      (store : Store w) × (r
        ≡ some (received pid reply_iblt ∷ request w pid d.entries, record u { store = store }))
      × (store.rows ≡ u.store.rows)
      × IsSynced w store

  -- The exchange with a peer that holds the rows `theirs`.
  pub record IsExchange (pid size : ℕ) (theirs : List (Row w)) (u : Updater w)
      (r : Option (List (Action w) × Updater w)) : Type 0 where
    pub difference : Iblt ContentKey
    pub built :
        (compute_content_iblt w size theirs >>= λ t.
        delete_all ⦃key = content_key w.sip⦄ t (ids w u.store.rows))
        ≡ ok difference
    pub decoded : Option (Decoded ContentKey)
    pub replays : Replays ⦃key = content_key w.sip⦄ difference decoded
    pub answered : Answered pid u decoded r

  abbrev answer :
      ℕ → Updater w → Store w → Option (Decoded ContentKey) → Option (List (Action w) × Updater w)
  answer pid u store none = none
  answer pid u store (some d) =
      some (received pid reply_iblt ∷ request w pid d.entries, record u { store = store })
