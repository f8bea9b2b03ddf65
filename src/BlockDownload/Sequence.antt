-- ===== src/BlockDownload/Sequence.antt =====
-- Blocks are connected in the order in which they were wanted, none left out and none twice.
use defiads.Prelude.{
  ℕ, zero, suc, ◌≡◌, refl, ap, ◌∙◌, Bool, true, false, Option, none, some, List, [], ◌∷◌, ◌++◌, inl,
  inr, Bool-cases, ◌==◌,
}
use defiads.BlockDownload.{
  BlockDownload, Effect, get_data, expect_blocks, received_block, block_connected, Event,
  peer_connected, peer_disconnected, incoming_block, incoming_other, take_wanted, max_entries,
  request_asked, ask_blocks, is_peer, block, after_message, requeue, step,
}

-- The blocks that went downstream.
abbrev pub connected : List Effect → List (ℕ × ℕ)
connected [] = []
connected (block_connected b ∷ es) = b ∷ connected es
connected (get_data p hs ∷ es) = connected es
connected (expect_blocks p n ∷ es) = connected es
connected (received_block p ∷ es) = connected es

-- The blocks that are still to come.
abbrev pub pending : BlockDownload → List (ℕ × ℕ)
pending q = q.blocks_asked ++ q.blocks_wanted

-- Nothing is lost and nothing changes places.
abbrev pub Keeps : BlockDownload → List Effect × BlockDownload → Type 0
Keeps q r = connected (r.0) ++ pending (r.1) ≡ pending q

pub append_assoc : (xs ys zs : List (ℕ × ℕ)) → (xs ++ ys) ++ zs ≡ xs ++ (ys ++ zs)
append_assoc [] ys zs = refl
append_assoc (x ∷ xs) ys zs = ap (◌∷◌ x) (append_assoc xs ys zs)

append_nil : (xs : List (ℕ × ℕ)) → xs ++ [] ≡ xs
append_nil [] = refl
append_nil (x ∷ xs) = ap (◌∷◌ x) (append_nil xs)

connected-append : (es fs : List Effect) → connected (es ++ fs) ≡ connected es ++ connected fs
connected-append [] fs = refl
connected-append (block_connected b ∷ es) fs = ap (◌∷◌ b) (connected-append es fs)
connected-append (get_data p hs ∷ es) fs = connected-append es fs
connected-append (expect_blocks p n ∷ es) fs = connected-append es fs
connected-append (received_block p ∷ es) fs = connected-append es fs

take_wanted-append :
    (n : ℕ) (wanted asked : List (ℕ × ℕ))
    → (take_wanted n wanted asked).1 ++ (take_wanted n wanted asked).0 ≡ asked ++ wanted
unfolding take_wanted
take_wanted-append zero wanted asked = refl
take_wanted-append (suc n) [] asked = refl
take_wanted-append (suc n) (b ∷ wanted) asked =
    take_wanted-append n wanted (asked ++ b ∷ []) ∙ append_assoc asked (b ∷ []) wanted

connected-request : (pid : ℕ) (asked : List (ℕ × ℕ)) → connected (request_asked pid asked) ≡ []
unfolding request_asked
connected-request pid [] = refl
connected-request pid (b ∷ asked) = refl

ask_blocks-Keeps : (pid : ℕ) (busy : Bool) (q : BlockDownload) → Keeps q (ask_blocks pid busy q)
unfolding ask_blocks
ask_blocks-Keeps pid true q = refl
ask_blocks-Keeps pid false q =
    let moved = take_wanted max_entries q.blocks_wanted q.blocks_asked in
    ap (λ c. c ++ (moved.1 ++ moved.0)) (connected-request pid (moved.1))
    ∙ take_wanted-append max_entries q.blocks_wanted q.blocks_asked

abbrev queues : List (ℕ × ℕ) → List (ℕ × ℕ) → Option ℕ → BlockDownload
queues asked wanted peer = record {
  blocks_wanted = wanted;
  blocks_asked = asked;
  block_download_peer = peer;
}

block-queues :
    (pid hash : ℕ) (asked wanted : List (ℕ × ℕ)) (peer : Option ℕ)
    → Keeps (queues asked wanted peer) (block pid hash (queues asked wanted peer))
unfolding block
block-queues pid hash [] wanted peer = elim (Bool-cases (is_peer peer pid)) [
  | inr other ↦ rw other
  | inl ours ↦ rw ours
]
block-queues pid hash (b ∷ asked) wanted peer = elim (Bool-cases (is_peer peer pid)) [
  | inr other ↦ rw other
  | inl ours ↦ elim (Bool-cases (hash == b.0)) [
    | inl next ↦ rw (ours, next)
    | inr late ↦ rw (ours, late)
  ]
]

block-Keeps : (pid hash : ℕ) (q : BlockDownload) → Keeps q (block pid hash q)
block-Keeps pid hash q = block-queues pid hash q.blocks_asked q.blocks_wanted q.block_download_peer

after_message-queues :
    (pid : ℕ) (busy : Bool) (asked wanted : List (ℕ × ℕ)) (peer : Option ℕ)
    → Keeps (queues asked wanted peer) (after_message pid busy (queues asked wanted peer))
unfolding after_message
after_message-queues pid busy asked wanted none =
    ask_blocks-Keeps pid busy (queues asked wanted (some pid))
after_message-queues pid busy asked wanted (some p) = elim (Bool-cases (p == pid)) [
  | inl ours ↦ rw ours (ask_blocks-Keeps pid busy (queues asked wanted (some p)))
  | inr other ↦ rw other
]

pub after_message-Keeps :
    (pid : ℕ) (busy : Bool) (q : BlockDownload) → Keeps q (after_message pid busy q)
after_message-Keeps pid busy q =
    after_message-queues pid busy q.blocks_asked q.blocks_wanted q.block_download_peer

requeue-append : (asked wanted : List (ℕ × ℕ)) → requeue asked wanted ≡ asked ++ wanted
unfolding requeue
requeue-append [] wanted = refl
requeue-append (b ∷ asked) wanted = ap (◌∷◌ b) (requeue-append asked wanted)

-- Two steps in a row keep what each of them keeps.
Keeps-then :
    (q : BlockDownload) (r s : List Effect × BlockDownload)
    → Keeps q r
    → Keeps (r.1) s
    → Keeps q (r.0 ++ s.0, s.1)
Keeps-then q r s h k =
    ap (λ c. c ++ pending (s.1)) (connected-append (r.0) (s.0))
    ∙ append_assoc (connected (r.0)) (connected (s.0)) (pending (s.1))
    ∙ ap (λ c. connected (r.0) ++ c) k
    ∙ h

step-queues :
    (e : Event) (asked wanted : List (ℕ × ℕ)) (peer : Option ℕ)
    → Keeps (queues asked wanted peer) (step e (queues asked wanted peer))
unfolding step
step-queues (peer_connected pid true) asked wanted none = refl
step-queues (peer_connected pid true) asked wanted (some p) = refl
step-queues (peer_connected pid false) asked wanted peer = refl
step-queues (peer_disconnected pid) asked wanted peer = elim (Bool-cases (is_peer peer pid)) [
  | inl ours ↦ rw ours (requeue-append asked wanted)
  | inr other ↦ rw other
]
step-queues (incoming_block pid hash busy) asked wanted peer =
    let q = queues asked wanted peer in
    let r = block pid hash q in
    Keeps-then q r (after_message pid busy (r.1)) (block-Keeps pid hash q)
      (after_message-Keeps pid busy (r.1))
step-queues (incoming_other pid busy) asked wanted peer =
    after_message-Keeps pid busy (queues asked wanted peer)

pub step-Keeps : (e : Event) (q : BlockDownload) → Keeps q (step e q)
step-Keeps e q = step-queues e q.blocks_asked q.blocks_wanted q.block_download_peer
