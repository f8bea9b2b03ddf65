-- ===== src/BlockDownload/Wanted.antt =====
-- `headers` of src/blockdownload.rs: which blocks are wanted after headers that move no block off the
-- trunk.
use defiads.Prelude.{
  ℕ, ◌≡◌, refl, sym, ap, ap₂, subst, ◌∙◌, Bool, true, false, Option, none, some, List, [], ◌∷◌,
  ◌++◌, map, filter, inl, inr, Bool-cases, ltb, ok, Returns,
}
use mathlib.Core.List.{append-nil, append_assoc}
use defiads.World.{World}
use defiads.BlockDownload.{BlockDownload, follow}
use defiads.BlockDownload.Headers.{
  Added, stored, known, bad_work, failed, HeaderDb, Effects, received_headers, ban, Batch, last_of,
  flush, add_one, add_headers, headers,
}

module _ {w : World} (db : HeaderDb w) (birth : ℕ) where
  -- The headers that are stored of a list, with their heights, and the chain after them.
  abbrev pub and_stored : w.Header → Added → List (w.Header × ℕ) → List (w.Header × ℕ)
  and_stored header (stored height unwinds forwards) rest = (header, height) ∷ rest
  and_stored header known rest = rest
  and_stored header bad_work rest = rest
  and_stored header failed rest = rest

  abbrev pub stored_of : List w.Header → db.Chain → List (w.Header × ℕ)
  stored_of [] chain = []
  stored_of (h ∷ hs) chain =
      let r = db.add_header h chain in and_stored h (r.0) (stored_of hs (r.1))

  abbrev pub chain_after : List w.Header → db.Chain → db.Chain
  chain_after [] chain = chain
  chain_after (h ∷ hs) chain = chain_after hs (db.add_header h chain).1

  -- A header that is stored moves no block off the trunk, and names its tip where it moves it.
  abbrev pub IsForward : Added → Type 0
  IsForward (stored height none none) = Unit
  IsForward (stored height none (some (f ∷ fs))) = Unit
  IsForward (stored height none (some [])) = ⊥
  IsForward (stored height (some gone) forwards) = ⊥
  IsForward known = Unit
  IsForward bad_work = Unit
  IsForward failed = Unit

  abbrev pub AreForward : List w.Header → db.Chain → Type 0
  AreForward [] chain = Unit
  AreForward (h ∷ hs) chain = let r = db.add_header h chain in IsForward (r.0) × AreForward hs (r.1)

  abbrev pub is_young : w.Header × ℕ → Bool
  is_young h = ltb birth (db.time h.0)

  abbrev pub block_of : w.Header × ℕ → ℕ × ℕ
  block_of h = (w.bitcoin_hash h.0, h.1)

  abbrev joined_of : List (w.Header × ℕ) → List (ℕ × ℕ × ℕ)
  joined_of = map (λ (h : w.Header × ℕ). (db.time h.0, w.bitcoin_hash h.0, h.1))

  follow_joined :
      (hs : List (w.Header × ℕ)) (q : BlockDownload)
      → follow birth [] (joined_of hs) q
        ≡ record q { blocks_wanted = q.blocks_wanted ++ map block_of (filter is_young hs) }
  unfolding follow
  follow_joined [] q = ap (λ blocks. record q { blocks_wanted = blocks }) (sym (append-nil _))
  follow_joined (h ∷ hs) q = elim (Bool-cases (ltb birth (db.time h.0))) [
    | inl young ↦
        rw (follow, young)
          (follow_joined hs (record q { blocks_wanted = q.blocks_wanted ++ block_of h ∷ [] })
            ∙ ap (λ blocks. record q { blocks_wanted = blocks })
                (append_assoc q.blocks_wanted (block_of h ∷ []) _))
    | inr old ↦ rw (follow, old) (follow_joined hs q)
  ]

  -- The batch before its flush.
  record IsBatch (b : Batch db birth) (hs : List w.Header) (b' : Batch db birth) : Type 0 where
    queues : b'.queues ≡ b.queues
    connected : b'.connected ≡ b.connected ++ stored_of hs b.chain
    disconnected : b'.disconnected ≡ b.disconnected
    chain : b'.chain ≡ chain_after hs b.chain

  last_of-cons : (h : ℕ) (hs : List ℕ) → (l : ℕ) × (last_of db birth (h ∷ hs) ≡ some l)
  last_of-cons h [] = (h, refl)
  last_of-cons h (i ∷ hs) = last_of-cons i hs

  ended :
      (h : w.Header) (b : Batch db birth) (a : Added) (b' : Batch db birth)
      → (db.add_header h b.chain).0 ≡ a
      → b'.queues ≡ b.queues
      → b'.disconnected ≡ b.disconnected
      → b'.chain ≡ (db.add_header h b.chain).1
      → b'.connected ≡ b.connected ++ and_stored h a []
      → IsBatch b (h ∷ []) b'
  ended h b a b' e queues disconnected chain connected = record {
    queues = queues;
    connected = connected ∙ ap (λ c. b.connected ++ and_stored h c []) (sym e);
    disconnected = disconnected;
    chain = chain;
  }

  abbrev passed : Batch db birth → w.Header → Effects db birth → Batch db birth
  passed b h effects = record b { chain = (db.add_header h b.chain).1; effects = effects }

  abbrev joined : Batch db birth → w.Header → ℕ → Option ℕ → Batch db birth
  joined b h height moved = record b {
    chain = (db.add_header h b.chain).1;
    connected = b.connected ++ (h, height) ∷ [];
    some_new = true;
    moved_tip = moved;
    height = height;
  }

  add_one-IsBatch :
      (pid : ℕ) (h : w.Header) (b : Batch db birth) (a : Added)
      → (db.add_header h b.chain).0 ≡ a
      → IsForward a
      → (b' : Batch db birth) × (add_one db birth pid h b ≡ ok b') × IsBatch b (h ∷ []) b'
  unfolding add_one
  add_one-IsBatch pid h b known e forward = (
    passed b h b.effects,
    rw (add_one, e) refl,
    ended h b known (passed b h b.effects) e refl refl refl (sym (append-nil _)),
  )
  add_one-IsBatch pid h b failed e forward = (
    passed b h b.effects,
    rw (add_one, e) refl,
    ended h b failed (passed b h b.effects) e refl refl refl (sym (append-nil _)),
  )
  add_one-IsBatch pid h b bad_work e forward =
      let b' = passed b h (b.effects ++ ban pid ∷ []) in
      (b', rw (add_one, e) refl, ended h b bad_work b' e refl refl refl (sym (append-nil _)))
  add_one-IsBatch pid h b (stored height none none) e forward =
      let b' = joined b h height b.moved_tip in
      (b', rw (add_one, e) refl, ended h b (stored height none none) b' e refl refl refl refl)
  add_one-IsBatch pid h b (stored height none (some (f ∷ fs))) e forward =
      let l = last_of-cons f fs in
      let b' = joined b h height (some (l.0)) in
      (
        b',
        rw (add_one, e, l.1) refl,
        ended h b (stored height none (some (f ∷ fs))) b' e refl refl refl refl,
      )
  add_one-IsBatch pid h b (stored height none (some [])) e forward = elim forward [ ]
  add_one-IsBatch pid h b (stored height (some gone) forwards) e forward = elim forward [ ]

  and_stored-append :
      (h : w.Header) (a : Added) (xs : List (w.Header × ℕ))
      → and_stored h a [] ++ xs ≡ and_stored h a xs
  and_stored-append h known xs = refl
  and_stored-append h failed xs = refl
  and_stored-append h bad_work xs = refl
  and_stored-append h (stored height unwinds forwards) xs = refl

  add_headers-IsBatch :
      (pid : ℕ) (hs : List w.Header) (b : Batch db birth)
      → AreForward hs b.chain
      → (b' : Batch db birth) × (add_headers db birth pid hs b ≡ ok (flush db birth b'))
        × IsBatch b hs b'
  unfolding add_headers
  add_headers-IsBatch pid [] b forward = (
    b,
    refl,
    record { queues = refl; connected = sym (append-nil _); disconnected = refl; chain = refl },
  )
  add_headers-IsBatch pid (h ∷ hs) b forward =
      let r = db.add_header h b.chain in
      let one = add_one-IsBatch pid h b (r.0) refl forward.0 in
      let rest =
        add_headers-IsBatch pid hs (one.0) (subst (AreForward hs) (sym one.2.chain) forward.1) in
      (
        rest.0,
        rw one.1 rest.1,
        record {
          queues = rest.2.queues ∙ one.2.queues;
          connected =
              rest.2.connected
              ∙ ap₂ (λ xs chain. xs ++ stored_of hs chain) one.2.connected one.2.chain
              ∙ append_assoc b.connected (and_stored h (r.0) []) (stored_of hs (r.1))
              ∙ ap (◌++◌ b.connected) (and_stored-append h (r.0) (stored_of hs (r.1)));
          disconnected = rest.2.disconnected ∙ one.2.disconnected;
          chain = rest.2.chain ∙ ap (chain_after hs) one.2.chain;
        },
      )

  abbrev begin : ℕ → BlockDownload → w.Header × ℕ → db.Chain → Batch db birth
  begin pid q tip chain = record {
    effects = received_headers pid ∷ [];
    queues = q;
    connected = [];
    disconnected = [];
    some_new = false;
    moved_tip = none;
    height = tip.1;
    chain = chain;
  }

  -- Headers of which none moves a block off the trunk do not panic: the blocks of those that are
  -- stored and are younger than the wallet, whether they are on the trunk or not, are wanted behind
  -- the blocks that were wanted before, in their order; the blocks that are asked for and the peer stay.
  pub headers-wanted :
      (pid : ℕ) (hs : List w.Header) (busy : Bool) (chain : db.Chain) (q : BlockDownload)
      (tip : w.Header × ℕ)
      → db.header_tip chain ≡ some tip
      → AreForward hs chain
      → Returns (headers db birth pid hs busy chain q) λ r.
        (r.1.blocks_wanted ≡ q.blocks_wanted ++ map block_of (filter is_young (stored_of hs chain)))
        × (r.1.blocks_asked ≡ q.blocks_asked)
        × (r.1.block_download_peer ≡ q.block_download_peer)
        × (r.2 ≡ chain_after hs chain)
  unfolding headers flush
  headers-wanted pid [] busy chain q tip at forward =
      (_, refl, (sym (append-nil _), refl, refl, refl))
  headers-wanted pid (h ∷ hs) busy chain q tip at forward =
      let b = begin pid q tip chain in
      let r = add_headers-IsBatch pid (h ∷ hs) b forward in
      let queues : (flush db birth r.0).queues ≡ record q {
        blocks_wanted =
            q.blocks_wanted ++ map block_of (filter is_young (stored_of (h ∷ hs) chain));
      } =
        ap (λ left. follow birth (map db.time left) (joined_of (r.0.connected)) (r.0.queues))
          r.2.disconnected
        ∙ ap₂ (λ joined queues. follow birth [] (joined_of joined) queues) r.2.connected r.2.queues
        ∙ follow_joined (stored_of (h ∷ hs) chain) q in
      rw (headers, at, r.1)
        (
          _,
          refl,
          (
            ap (λ (x : BlockDownload). x.blocks_wanted) queues,
            ap (λ (x : BlockDownload). x.blocks_asked) queues,
            ap (λ (x : BlockDownload). x.block_download_peer) queues,
            r.2.chain,
          ),
        )
