-- ===== src/Updater/Delivery.antt =====
-- An ad that a peer holds and this node lacks: the three messages that bring it over.
use mathlib.Core.List.{Permᴰ}
use mathlib.Core.List.Permᴰ
use defiads.Prelude.{
  ℕ, suc, ◌^◌, ◌<◌, ◌≤◌, ◌≡◌, refl, sym, ap, ◌∙◌, subst, arith, Bool, true, false, some, [], ◌∷◌,
  length, ◌==◌, if◌then◌else◌, ok, Returns,
}
use defiads.World.{World}
use defiads.Trunk.{Trunk}
use defiads.Text.{as_string}
use defiads.Keys.{ContentKey}
use defiads.Iblt.{Iblt}
use defiads.Sketch.{Float}
use defiads.Contents.{Content, Row, ids, digest, content_length, row_of, answer, read_content}
use defiads.Contents.Limit.{total}
use defiads.Messages.{get, content}
use defiads.Store.{Store, get_tip, get_iblt, admissible, truncate_to_limit}
use defiads.Store.Sync.{IsSynced, HasSketch}
use defiads.Store.Adding.{IsNew, add_content-IsSynced}
use defiads.Store.Truncation.{IsWithin-perm, truncate_to_limit-IsWithin}
use defiads.Updater.{
  Updater, send_network, expect, received, reply_iblt, reply_content, on_content_iblt, on_content,
  on_get,
}
use defiads.Updater.Asking.{get_iblt-IsServing, asks}

module _ (w : World) where
  -- The end of the handler: rows within the limit all stay.
  truncated :
      (busy : Bool) (s : Store w)
      → IsSynced w s
      → HasSketch w s
      → 0 < length s.iblts
      → total w s.rows ≤ s.storage_limit
      → s.storage_limit < 2 ^ 64
      → Returns
          (if busy then ok s else truncate_to_limit w s)
          λ s'. Permᴰ s'.rows s.rows × IsSynced w s' × HasSketch w s'
  truncated true s h k pos fits small = (s, refl, (Permᴰ.refl s.rows, h, k))
  truncated false s h k pos fits small =
      let t = truncate_to_limit-IsWithin w s h k pos (omega arith) in
      (t.0, t.1, (IsWithin-perm w s.storage_limit s.rows t.0.rows t.2.0 fits, t.2.1, t.2.2))

  -- The content of an ad that is let in and new is held, whether the store is truncated then or not.
  pub on_content-holds :
      (float : Float) (trunk : Trunk w) (pid : ℕ) (busy : Bool) (c : Content w) (u : Updater w)
      (height : ℕ) (header : w.Header) (value : ℕ) (text : w.codec.Str)
      → admissible w trunk c ≡ some (height, header, value)
      → as_string w.codec c.ad.content ≡ ok (some text)
      → (content_length w c == 0) ≡ false
      → IsNew w (digest w c.ad) u.store.rows
      → total w (row_of w height (w.bitcoin_hash header) c value text ∷ u.store.rows)
        ≤ u.store.storage_limit
      → u.store.storage_limit < 2 ^ 64
      → IsSynced w u.store
      → HasSketch w u.store
      → 0 < length u.store.iblts
      → Returns (on_content w float trunk pid c busy u) λ r.
        (r.0 ≡ received pid reply_content ∷ [])
        × Permᴰ r.1.store.rows (row_of w height (w.bitcoin_hash header) c value text ∷ u.store.rows)
        × IsSynced w r.1.store
        × HasSketch w r.1.store
  unfolding on_content
  on_content-holds float trunk pid busy c u height header value text admits decodes nonempty fresh
        fits small h k pos =
      let a =
        add_content-IsSynced w trunk c u.store height header value text admits decodes nonempty
          fresh h k in
      let inside : total w a.0.1.rows ≤ a.0.1.storage_limit =
        subst (λ n. total w a.0.1.rows ≤ n) (sym a.2.5)
          (subst (λ rs. total w rs ≤ u.store.storage_limit) (sym a.2.1) fits) in
      let t =
        truncated busy (a.0.1) (a.2.2) (a.2.3) (subst (λ n. 0 < n) (sym a.2.4) pos) inside
          (subst (λ n. n < 2 ^ 64) (sym a.2.5) small) in
      rw (a.1, t.1) (_, refl, (refl, subst (Permᴰ t.0.rows) a.2.1 t.2.0, t.2.1, t.2.2))

  -- The messages of an exchange, at the end of which this node holds an ad.
  pub record IsDelivered (float : Float) (trunk : Trunk w) (fuel us them tip size : ℕ) (busy : Bool)
      (c : Content w) (row : Row w) (u v : Updater w) : Type 0 where
    pub iblt : Iblt ContentKey
    pub sender : Updater w
    pub made : get_iblt w size v.store ≡ ok (iblt, sender.store)
    pub asking : Updater w
    pub asked :
        on_content_iblt w float trunk (suc (suc fuel)) them tip iblt u
        ≡ ok (
            some (
              received them reply_iblt
                  ∷ expect them 1 reply_content
                  ∷ send_network them (get (digest w c.ad ∷ []))
                  ∷ [],
              asking,
            ))
    pub served :
        on_get w float trunk us (digest w c.ad ∷ []) sender
        ≡ ok (send_network us (content c) ∷ [], sender)
    pub holding : Updater w
    pub held :
        on_content w float trunk them c busy asking ≡ ok (received them reply_content ∷ [], holding)
    pub rows : Permᴰ holding.store.rows (row ∷ u.store.rows)
    pub synced : IsSynced w holding.store
    pub sketch : HasSketch w holding.store

  -- Where a peer at our tip holds our ads and one more, which we lack, and gives it out as it is; the
  -- ad is let in by our guards, decodes and is not empty, and with it our rows are within the limit;
  -- and the tables and sketches are those of the rows: then the peer's table, of any size above zero
  -- that fits 32 bits, our request for the one ad, and the content that the peer sends make no
  -- step panic, and bring the ad to us. Our rows are then those before and that of the ad, with the
  -- tables, the sketch and the count of keys in step.
  pub delivers :
      (float : Float) (trunk : Trunk w) (fuel us them tip size : ℕ) (busy : Bool) (c : Content w)
      (u v : Updater w) (height : ℕ) (header : w.Header) (value : ℕ) (text : w.codec.Str)
      → get_tip w trunk ≡ some tip
      → 0 < size
      → size < 2 ^ 32
      → Permᴰ (ids w v.store.rows) (digest w c.ad ∷ ids w u.store.rows)
      → read_content w (digest w c.ad) v.store.rows ≡ answer (some c)
      → IsSynced w u.store
      → HasSketch w u.store
      → IsSynced w v.store
      → HasSketch w v.store
      → admissible w trunk c ≡ some (height, header, value)
      → as_string w.codec c.ad.content ≡ ok (some text)
      → (content_length w c == 0) ≡ false
      → IsNew w (digest w c.ad) u.store.rows
      → total w (row_of w height (w.bitcoin_hash header) c value text ∷ u.store.rows)
        ≤ u.store.storage_limit
      → u.store.storage_limit < 2 ^ 64
      → IsDelivered float trunk fuel us them tip size busy c
          (row_of w height (w.bitcoin_hash header) c value text)
          u
          v
  unfolding on_get
  delivers float trunk fuel us them tip size busy c u v height header value text at_tip pos small
        more holds uh uk vh vk admits decodes nonempty fresh fits bound =
      let row = row_of w height (w.bitcoin_hash header) c value text in
      let g = get_iblt-IsServing w size v.store pos vh vk in
      let a =
        asks w float trunk fuel them tip size (digest w c.ad) (ids w v.store.rows) u at_tip pos
          small more uh uk in
      let u' : Updater w = record u { store = a.0 } in
      let within : total w (row ∷ a.0.rows) ≤ u'.store.storage_limit =
        subst (λ n. total w (row ∷ a.0.rows) ≤ n) (sym a.3)
          (subst (λ rs. total w (row ∷ rs) ≤ u.store.storage_limit) (sym a.2) fits) in
      let h =
        on_content-holds float trunk them busy c u' height header value text admits decodes nonempty
          (subst (IsNew w (digest w c.ad)) (sym a.2) fresh) within
          (subst (λ n. n < 2 ^ 64) (sym a.3) bound) a.4 a.5 a.6 in
      let gives : read_content w (digest w c.ad) g.0.1.rows ≡ answer (some c) =
        ap (read_content w (digest w c.ad)) g.2.rows ∙ holds in
      record {
        iblt = g.0.0;
        sender = record v { store = g.0.1 };
        made = g.1;
        asking = u';
        asked =
            subst
              (λ t.
                on_content_iblt w float trunk (suc (suc fuel)) them tip t u
                ≡ ok (
                    some (
                      received them reply_iblt
                          ∷ expect them 1 reply_content
                          ∷ send_network them (get (digest w c.ad ∷ []))
                          ∷ [],
                      u',
                    )))
              (sym g.2.is_table) a.1;
        served = rw (on_get, gives) refl;
        holding = h.0.1;
        held = h.1 ∙ ap (λ actions. ok (actions, h.0.1)) h.2.0;
        rows = subst (λ rs. Permᴰ h.0.1.store.rows (row ∷ rs)) a.2 h.2.1;
        synced = h.2.2;
        sketch = h.2.3;
      }
