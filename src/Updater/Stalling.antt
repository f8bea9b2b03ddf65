-- ===== src/Updater/Stalling.antt =====
-- A table of a peer that keeps the updater of src/updater.rs busy for ever.
use defiads.Prelude.{
  ℕ, ◌%◌, ◌^◌, ◌≡◌, refl, some, none, List, [], ◌∷◌, ◌==◌, true, length, ok, ==_iff,
}
use defiads.World.{World}
use defiads.Trunk.{Trunk}
use defiads.Keys.{ContentKey, content_key}
use defiads.Iblt.{Iblt, substract, buckets_of}
use defiads.IbltIterator.Endless.{crossed, decode-crossed}
use defiads.Sketch.{Float}
use defiads.Store.{Store, get_tip, get_iblt}
use defiads.Updater.{Updater, on_content_iblt}

-- A peer at our tip sends a table from which the table that the store gives out for its size can be
-- taken off, and the difference counts two keys once each and nothing else: the first, whose buckets are
-- 1 and 2, in bucket 0, and the second, whose buckets are 0 and 3, in bucket 1. Then the handler of the
-- message gives no answer, whatever the fuel of the enumeration.
pub on_content_iblt-crossed :
    {w : World} (float : Float) (trunk : Trunk w) (pid tip : ℕ) (iblt ours : Iblt ContentKey)
    (u : Updater w) (store : Store w) (k0 k1 k m : ℕ) (ksequence : List (ℕ × ℕ)) (x y : ContentKey)
    → get_tip w trunk ≡ some tip
    → get_iblt w (length iblt.buckets % 2 ^ 32) u.store ≡ ok (ours, store)
    → substract ⦃key = content_key w.sip⦄ iblt ours
      ≡ ok (crossed ⦃key = content_key w.sip⦄ k0 k1 k ksequence m x y)
    → buckets_of ⦃key = content_key w.sip⦄
        (crossed ⦃key = content_key w.sip⦄ k0 k1 k ksequence m x y)
        x
      ≡ ok (1 ∷ 2 ∷ [])
    → buckets_of ⦃key = content_key w.sip⦄
        (crossed ⦃key = content_key w.sip⦄ k0 k1 k ksequence m x y)
        y
      ≡ ok (0 ∷ 3 ∷ [])
    → (fuel : ℕ) → on_content_iblt w float trunk fuel pid tip iblt u ≡ ok none
unfolding on_content_iblt
on_content_iblt-crossed {w} float trunk pid tip iblt ours u store k0 k1 k m ksequence x y at_tip got
      left px py fuel =
    let same : (tip == tip) ≡ true = (==_iff tip tip).1 refl in
    rw
      (
        on_content_iblt,
        at_tip,
        same,
        got,
        left,
        decode-crossed ⦃key = content_key w.sip⦄ k0 k1 k ksequence m x y px py fuel,
      )
      refl
