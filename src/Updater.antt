-- ===== src/Updater.antt =====
-- src/updater.rs: how two peers find and exchange the ads that one of them lacks. A handler gives
-- the new state and what it does towards the peers and the timeouts, in order. `is_busy_with` of the
-- timeouts and the random peer of a poll are arguments. The map of the questions that were asked is a
-- list of pairs of which no two have one peer.
pub mod Size
pub mod Exchange
pub mod Poll
pub mod Asking
pub mod Delivery
pub mod Stalling
use defiads.Prelude.{
  ℕ, zero, suc, ◌+◌, ◌*◌, ◌-◌, ◌/◌, ◌%◌, ◌^◌, Bool, true, false, not, ◌&&◌, Option, none, some,
  List, [], ◌∷◌, ◌++◌, ◌==◌, ltb, leb, if◌then◌else◌, length, filter, Run, ok, panic, ◌>>=◌,
}
use defiads.World.{World}
use defiads.Trunk.{Trunk}
use defiads.Keys.{ContentKey, content_key}
use defiads.Iblt.{Iblt, Entry, inserted, deleted, substract}
use defiads.IbltIterator
use defiads.IbltIterator.{Decoded, decode}
use defiads.Sketch.{Float, estimate_diff_size}
use defiads.Contents.{Content, Row, Queried, answer, no_rows, read_content}
use defiads.Messages.{PollContentMessage, Message, poll_content, content_iblt, get, content}
use defiads.Store.{Store, get_tip, get_iblt, add_content, truncate_to_limit}

abbrev pub minimum_iblt_size : ℕ
minimum_iblt_size = 100

-- `MINIMUM_IBLT_SIZE << 16`
abbrev pub maximum_iblt_size : ℕ
maximum_iblt_size = 6553600

abbrev pub poll_frequency : ℕ
poll_frequency = 60

-- Which answers a peer owes.
pub data ExpectedReply : Type 0 where
  reply_poll reply_iblt reply_content reply_get : ExpectedReply

pub data Action (w : World) : Type 0 where
  send_network : ℕ → Message w → Action w
  expect : ℕ → ℕ → ExpectedReply → Action w
  received : ℕ → ExpectedReply → Action w
  check : List ExpectedReply → Action w

pub record Updater (w : World) : Type 0 where
  pub store : Store w
  pub poll_asked : List (ℕ × PollContentMessage)
  pub last_polled : ℕ

-- The loop that finds the size of a table; each round takes two more bits, so that 8 rounds reach
-- the maximum.
unfoldable pub grow_size : ℕ → ℕ → ℕ → ℕ
grow_size zero diff size = size
grow_size (suc fuel) diff size =
    let rest = grow_size fuel diff (size * 4) in
    if ltb size maximum_iblt_size && ltb size diff then rest else size

abbrev pub iblt_size : ℕ → ℕ
iblt_size diff = grow_size 8 diff minimum_iblt_size

unfoldable pub find_asked : ℕ → List (ℕ × PollContentMessage) → Option PollContentMessage
find_asked pid [] = none
find_asked pid ((p, poll) ∷ asked) = if pid == p then some poll else find_asked pid asked

unfoldable pub remove_asked : ℕ → List (ℕ × PollContentMessage) → List (ℕ × PollContentMessage)
remove_asked pid = filter (λ a. not (pid == a.0))

-- The keys that the entries say to ask for.
unfoldable pub requested : List (Entry ContentKey) → List ContentKey
requested [] = []
requested (inserted x ∷ es) = x ∷ requested es
requested (deleted x ∷ es) = requested es

-- The request for the keys that the difference shows. The code logs a failed enumeration.
unfoldable pub request : (w : World) → ℕ → List (Entry ContentKey) → List (Action w)
request w pid es = elim (requested es) [
  | [] ↦ []
  | x ∷ xs ↦ expect pid (length (x ∷ xs)) reply_content ∷ send_network pid (get (x ∷ xs)) ∷ []
]

module _ (w : World) (float : Float) (trunk : Trunk w) where
  abbrev pub Step : Type 0
  Step = Run (List (Action w) × Updater w)

  abbrev pub our_poll : ℕ → Updater w → PollContentMessage
  our_poll tip u = record { tip = tip; sketch = u.store.min_sketch; size = u.store.n_keys }

  -- `Updater::poll_content`, and the end of a poll of a random peer.
  unfoldable pub ask : ℕ → Updater w → List (Action w) × Updater w
  ask pid u = elim (get_tip w trunk) [
    | none ↦ ([], u)
    | some tip ↦ (
      send_network pid (poll_content (our_poll tip u)) ∷ expect pid 1 reply_poll ∷ [],
      record u { poll_asked = (pid, our_poll tip u) ∷ remove_asked pid u.poll_asked },
    )
  ]

  -- The answer to a reply that shows a difference.
  unfoldable pub send_table : ℕ → ℕ → ℕ → Updater w → Step
  send_table pid tip diff u = do
    r ← get_iblt w (iblt_size diff) u.store
    ok (
      expect pid 1 reply_iblt ∷ send_network pid (content_iblt tip (r.0)) ∷ [],
      record u { store = r.1 },
    )

  -- A reply to our question.
  unfoldable pub compare_polls : ℕ → PollContentMessage → PollContentMessage → Updater w → Step
  compare_polls pid question poll u = elim (get_tip w trunk) [
    | none ↦ ok ([], u)
    | some tip ↦
        if tip == question.tip && question.tip == poll.tip
        then (estimate_diff_size float question.sketch question.size poll.sketch poll.size
            >>= λ estimated.
                let diff = estimated * 3 % 2 ^ 32 / 2 in
                if ltb 0 diff then send_table pid tip diff u else ok ([], u))
        else ok ([], u)
  ]

  unfoldable pub on_poll_content : ℕ → PollContentMessage → Updater w → Step
  on_poll_content pid poll u = elim (find_asked pid u.poll_asked) [
    | none ↦ ok (ask pid u)
    | some question ↦
        compare_polls pid question poll (record u { poll_asked = remove_asked pid u.poll_asked })
        >>= λ r. ok (received pid reply_poll ∷ r.0, r.1)
  ]

  -- The enumeration runs on fuel, and `none` means that the fuel ran out.
  unfoldable pub on_content_iblt :
      ℕ → ℕ → ℕ → Iblt ContentKey → Updater w → Run (Option (List (Action w) × Updater w))
  on_content_iblt fuel pid tip iblt u = elim (get_tip w trunk) [
    | none ↦ ok (some (received pid reply_iblt ∷ [], u))
    | some our_tip ↦
        if tip == our_tip
        then (get_iblt w (length iblt.buckets % 2 ^ 32) u.store >>= λ r.
            substract ⦃key = content_key w.sip⦄ iblt (r.0) >>= λ difference.
            decode ⦃key = content_key w.sip⦄ fuel
              (IbltIterator.new ⦃key = content_key w.sip⦄ difference)
            >>= λ d. ok (elim d [
              | none ↦ none
              | some found ↦
                  some (
                    received pid reply_iblt ∷ request w pid found.entries,
                    record u { store = r.1 },
                  )
            ]))
        else ok (some (received pid reply_iblt ∷ [], u))
  ]

  unfoldable pub on_content : ℕ → Content w → Bool → Updater w → Step
  on_content pid c busy u = do
    r ← add_content w trunk c u.store
    store ← if busy then ok (r.1) else truncate_to_limit w (r.1)
    ok (received pid reply_content ∷ [], record u { store = store })

  -- A missing row is an error, which the handler `expect`s not to see.
  unfoldable pub on_get : ℕ → List ContentKey → Updater w → Step
  on_get pid [] u = ok ([], u)
  on_get pid (x ∷ ids) u = elim (read_content w x u.store.rows) [
    | no_rows ↦ panic
    | answer c ↦ on_get pid ids u >>= λ r.
        ok (elim c [ none ↦ r.0 | some found ↦ send_network pid (content found) ∷ r.0 ], r.1)
  ]

  unfoldable pub on_connected : ℕ → ℕ → Updater w → List (Action w) × Updater w
  on_connected pid now u = let r = ask pid u in (r.0, record r.1 { last_polled = now })

  unfoldable pub on_disconnected : ℕ → Updater w → Updater w
  on_disconnected pid u = record u { poll_asked = remove_asked pid u.poll_asked }

  -- What follows the messages of a second: the check of the timeouts, and the poll of a random peer
  -- when it is time. A clock that went back panics.
  unfoldable pub tick : ℕ → Option ℕ → Updater w → Step
  tick now chosen u =
      let checked : Action w = check (reply_poll ∷ reply_iblt ∷ reply_content ∷ reply_get ∷ []) in
      if ltb now u.last_polled
      then panic
      else (if ltb poll_frequency (now - u.last_polled)
          then elim chosen [
            | none ↦ ok (checked ∷ [], record u { last_polled = now })
            | some pid ↦ let r = ask pid (record u { last_polled = now }) in ok (checked ∷ r.0, r.1)
          ]
          else ok (checked ∷ [], u))
