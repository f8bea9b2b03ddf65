-- ===== src/Updater/Poll.antt =====
-- Polls between peers that hold the same ads.
use defiads.Prelude.{ℕ, ◌^◌, ◌<◌, ◌≡◌, refl, some, List, [], ◌∷◌, length, true, ◌==◌, ==_iff, ok}
use defiads.World.{World}
use defiads.Trunk.{Trunk}
use defiads.Sketch.{Float, estimate_diff_size_self}
use defiads.Store.{get_tip}
use defiads.Updater.{
  Updater, find_asked, remove_asked, received, reply_poll, compare_polls, on_poll_content,
}

module _ (w : World) (float : Float) (trunk : Trunk w) where
  -- A reply, at our tip and with the sketch of our question, that sketch being of at least one
  -- and fewer than 2 ^ 24 hashes, sends no table: the question is closed, the answer is noted, and
  -- nothing else changes.
  pub on_poll_content_same :
      (pid tip size our_size : ℕ) (sketch : List ℕ) (u : Updater w)
      → get_tip w trunk ≡ some tip
      → find_asked pid u.poll_asked ≡ some (record { tip = tip; sketch = sketch; size = our_size })
      → 0 < length sketch
      → length sketch < 2 ^ 24
      → on_poll_content w float trunk pid (record { tip = tip; sketch = sketch; size = size }) u
        ≡ ok (received pid reply_poll ∷ [], record u { poll_asked = remove_asked pid u.poll_asked })
  unfolding on_poll_content compare_polls
  on_poll_content_same pid tip size our_size sketch u at_tip asked pos small =
      let same : (tip == tip) ≡ true = (==_iff tip tip).1 refl in
      rw (
        on_poll_content,
        asked,
        compare_polls,
        at_tip,
        same,
        estimate_diff_size_self float sketch our_size size pos small,
      )
