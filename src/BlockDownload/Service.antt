-- ===== src/BlockDownload/Service.antt =====
-- `BlockDownload::run` of src/blockdownload.rs: every message, also those of headers, and what a run
-- of them does to the queues.
use defiads.Prelude.{
  ℕ, ◌≡◌, refl, sym, ap, ap₂, subst, ◌∙◌, Bool, true, false, some, List, [], ◌∷◌, ◌++◌, map, filter,
  if◌then◌else◌, Run, ok, ◌>>=◌, Returns,
}
use mathlib.Core.List.{append-nil}
use defiads.World.{World}
use defiads.BlockDownload.{
  BlockDownload, Effect, get_data, expect_blocks, received_block, block_connected, peer_connected,
  peer_disconnected, incoming_block, after_message, step,
}
use defiads.BlockDownload.Headers.{
  HeaderDb, HeaderEffect, BlockInventory, headers, inv, ask_headers,
}
use defiads.BlockDownload.Sequence.{
  connected, pending, Keeps, step-Keeps, after_message-Keeps, append_assoc,
}
use defiads.BlockDownload.Wanted.{
  AreForward, block_of, chain_after, is_young, stored_of, headers-wanted,
}

-- A message, with what was said of its peer: whether it serves blocks, and whether the timeouts still
-- wait for its headers and for its blocks.
pub data PeerEvent (w : World) : Type 0 where
  on_connected : ℕ → Bool → Bool → PeerEvent w
  on_disconnected : ℕ → PeerEvent w
  on_headers : ℕ → List w.Header → Bool → Bool → Bool → PeerEvent w
  on_inv : ℕ → List BlockInventory → Bool → Bool → Bool → PeerEvent w
  on_block : ℕ → ℕ → Bool → PeerEvent w
  on_other : ℕ → Bool → PeerEvent w

-- What goes out, for the blocks or for the headers.
pub data Output (w : World) : Type 0 where
  of_blocks : Effect → Output w
  of_headers : HeaderEffect w → Output w

module _ {w : World} (db : HeaderDb w) (birth : ℕ) where
  -- The queues and the chain.
  abbrev pub Served : Type 0
  Served = List (Output w) × BlockDownload × db.Chain

  -- What follows a message of a peer, behind what the message did.
  unfoldable pub then_ask : ℕ → Bool → List (HeaderEffect w) × BlockDownload × db.Chain → Served
  then_ask pid busy (es, q, chain) =
      let s = after_message pid busy q in (map of_headers es ++ map of_blocks (s.0), s.1, chain)

  unfoldable pub serve : PeerEvent w → BlockDownload → db.Chain → Run Served
  unfolding then_ask
  serve (on_connected pid serving awaited) q chain =
      let s = step (peer_connected pid serving) q in
      ok (
        (if serving then map of_headers (ask_headers db birth pid awaited chain) else [])
            ++ map of_blocks (s.0),
        s.1,
        chain,
      )
  serve (on_disconnected pid) q chain =
      let s = step (peer_disconnected pid) q in ok (map of_blocks (s.0), s.1, chain)
  serve (on_headers pid hs false awaited busy) q chain = ok (then_ask pid busy ([], q, chain))
  serve (on_headers pid hs true awaited busy) q chain =
      headers db birth pid hs awaited chain q >>= λ r. ok (then_ask pid busy r)
  serve (on_inv pid v serving awaited busy) q chain =
      ok (then_ask pid busy ((if serving then inv db birth pid v awaited chain else []), q, chain))
  serve (on_block pid hash busy) q chain =
      let s = step (incoming_block pid hash busy) q in ok (map of_blocks (s.0), s.1, chain)
  serve (on_other pid busy) q chain = ok (then_ask pid busy ([], q, chain))

  -- The loop over the messages.
  unfoldable pub serve_all : List (PeerEvent w) → BlockDownload → db.Chain → Run Served
  unfolding serve
  serve_all [] q chain = ok ([], q, chain)
  serve_all (m ∷ ms) q chain = do
    r ← serve m q chain
    s ← serve_all ms (r.1) (r.2)
    ok (r.0 ++ s.0, s.1, s.2)

  -- The blocks that went downstream.
  abbrev pub delivered : List (Output w) → List (ℕ × ℕ)
  delivered [] = []
  delivered (of_blocks e ∷ es) = connected (e ∷ []) ++ delivered es
  delivered (of_headers e ∷ es) = delivered es

  -- The blocks that a message adds by its headers, and the chain after it.
  abbrev pub joined_by : PeerEvent w → db.Chain → List (ℕ × ℕ)
  joined_by (on_headers pid hs true awaited busy) chain =
      map (block_of db birth) (filter (is_young db birth) (stored_of db birth hs chain))
  joined_by m chain = []

  abbrev pub chain_by : PeerEvent w → db.Chain → db.Chain
  chain_by (on_headers pid hs true awaited busy) chain = chain_after db birth hs chain
  chain_by m chain = chain

  abbrev pub joined_by_all : List (PeerEvent w) → db.Chain → List (ℕ × ℕ)
  joined_by_all [] chain = []
  joined_by_all (m ∷ ms) chain = joined_by m chain ++ joined_by_all ms (chain_by m chain)

  -- The headers of a message, where they are looked at, move no block off the trunk.
  abbrev pub IsCalm : PeerEvent w → db.Chain → Type 0
  IsCalm (on_headers pid hs true awaited busy) chain =
      ((tip : w.Header × ℕ) × (db.header_tip chain ≡ some tip)) × AreForward db birth hs chain
  IsCalm m chain = Unit

  abbrev pub AreCalm : List (PeerEvent w) → db.Chain → Type 0
  AreCalm [] chain = Unit
  AreCalm (m ∷ ms) chain = IsCalm m chain × AreCalm ms (chain_by m chain)

  delivered-append : (es fs : List (Output w)) → delivered (es ++ fs) ≡ delivered es ++ delivered fs
  delivered-append [] fs = refl
  delivered-append (of_blocks e ∷ es) fs =
      ap (λ bs. connected (e ∷ []) ++ bs) (delivered-append es fs)
      ∙ sym (append_assoc (connected (e ∷ [])) (delivered es) (delivered fs))
  delivered-append (of_headers e ∷ es) fs = delivered-append es fs

  delivered-blocks : (es : List Effect) → delivered (map of_blocks es) ≡ connected es
  delivered-blocks [] = refl
  delivered-blocks (block_connected b ∷ es) = ap (◌∷◌ b) (delivered-blocks es)
  delivered-blocks (get_data p hs ∷ es) = delivered-blocks es
  delivered-blocks (expect_blocks p n ∷ es) = delivered-blocks es
  delivered-blocks (received_block p ∷ es) = delivered-blocks es

  delivered-headers :
      (es : List (HeaderEffect w)) (fs : List Effect)
      → delivered (map of_headers es ++ map of_blocks fs) ≡ connected fs
  delivered-headers [] fs = delivered-blocks fs
  delivered-headers (e ∷ es) fs = delivered-headers es fs

  -- What a message does: blocks that go out, then those to come, are those to come before it and
  -- those that its headers add.
  abbrev IsServed : BlockDownload → List (ℕ × ℕ) → db.Chain → Served → Type 0
  IsServed q joined chain r = (delivered r.0 ++ pending r.1 ≡ pending q ++ joined) × (r.2 ≡ chain)

  calm :
      (es : List (HeaderEffect w)) (q : BlockDownload) (chain : db.Chain)
      (s : List Effect × BlockDownload)
      → Keeps q s
      → IsServed q [] chain (map of_headers es ++ map of_blocks s.0, s.1, chain)
  calm es q chain s k = (
    ap (λ bs. bs ++ pending s.1) (delivered-headers es s.0) ∙ k ∙ sym (append-nil (pending q)),
    refl,
  )

  serve-IsServed :
      (m : PeerEvent w) (q : BlockDownload) (chain : db.Chain)
      → IsCalm m chain
      → Returns (serve m q chain) (IsServed q (joined_by m chain) (chain_by m chain))
  unfolding serve
  serve-IsServed (on_connected pid false awaited) q chain c =
      let e = peer_connected pid false in (_, refl, calm [] q chain (step e q) (step-Keeps e q))
  serve-IsServed (on_connected pid true awaited) q chain c =
      let e = peer_connected pid true in
      (_, refl, calm (ask_headers db birth pid awaited chain) q chain (step e q) (step-Keeps e q))
  serve-IsServed (on_disconnected pid) q chain c =
      let e = peer_disconnected pid in (_, refl, calm [] q chain (step e q) (step-Keeps e q))
  serve-IsServed (on_headers pid hs false awaited busy) q chain c =
      (_, refl, calm [] q chain (after_message pid busy q) (after_message-Keeps pid busy q))
  serve-IsServed (on_headers pid hs true awaited busy) q chain ((tip, at), forward) =
      let (r, ran, (wanted, asked, peer, moved)) =
        headers-wanted db birth pid hs awaited chain q tip at forward in
      let joined = joined_by (on_headers pid hs true awaited busy) chain in
      let grown : pending (r.1) ≡ pending q ++ joined =
        ap₂ ◌++◌ asked wanted ∙ sym (append_assoc q.blocks_asked q.blocks_wanted joined) in
      let s = after_message pid busy (r.1) in
      rw ran (
        then_ask pid busy r,
        refl,
        (
          ap (λ bs. bs ++ pending (s.1)) (delivered-headers (r.0) (s.0))
              ∙ after_message-Keeps pid busy (r.1)
              ∙ grown,
          moved,
        ),
      )
  serve-IsServed (on_inv pid v serving awaited busy) q chain c =
      let es = if serving then inv db birth pid v awaited chain else [] in
      (_, refl, calm es q chain (after_message pid busy q) (after_message-Keeps pid busy q))
  serve-IsServed (on_block pid hash busy) q chain c =
      let e = incoming_block pid hash busy in (_, refl, calm [] q chain (step e q) (step-Keeps e q))
  serve-IsServed (on_other pid busy) q chain c =
      (_, refl, calm [] q chain (after_message pid busy q) (after_message-Keeps pid busy q))

  regroup :
      (a b p q j k r : List (ℕ × ℕ))
      → a ++ p ≡ q ++ j
      → b ++ r ≡ p ++ k
      → (a ++ b) ++ r ≡ q ++ (j ++ k)
  regroup a b p q j k r one two =
      append_assoc a b r
      ∙ ap (λ xs. a ++ xs) two
      ∙ sym (append_assoc a p k)
      ∙ ap (λ xs. xs ++ k) one
      ∙ append_assoc q j k

  -- Over any messages of any peers in any order, with peers that come and go, of which the headers that
  -- are looked at move no block off the trunk of a chain with a tip: nothing panics, and the blocks
  -- that were connected, then those that are asked and then those that are wanted are, in this order,
  -- the blocks that were asked and wanted at the start and then those that the headers added.
  pub serve_all-pending :
      (ms : List (PeerEvent w)) (q : BlockDownload) (chain : db.Chain)
      → AreCalm ms chain
      → Returns
          (serve_all ms q chain)
          λ r. delivered r.0 ++ pending r.1 ≡ pending q ++ joined_by_all ms chain
  unfolding serve_all
  serve_all-pending [] q chain c = (_, refl, sym (append-nil (pending q)))
  serve_all-pending (m ∷ ms) q chain c =
      let one = serve-IsServed m q chain c.0 in
      let r = one.0 in
      let rest = serve_all-pending ms (r.1) (r.2) (subst (AreCalm ms) (sym one.2.1) c.1) in
      let s = rest.0 in
      let joined =
        subst (λ ch. delivered (s.0) ++ pending (s.1) ≡ pending (r.1) ++ joined_by_all ms ch)
          one.2.1 rest.2 in
      rw (one.1, rest.1)
        (
          _,
          refl,
          ap (λ bs. bs ++ pending (s.1)) (delivered-append (r.0) (s.0))
              ∙ regroup (delivered (r.0)) (delivered (s.0)) (pending (r.1)) (pending q)
                  (joined_by m chain) (joined_by_all ms (chain_by m chain)) (pending (s.1)) one.2.0
                  joined,
        )
