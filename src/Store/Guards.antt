-- ===== src/Store/Guards.antt =====
-- The guards of `add_content`: which ads are admitted, and that others change nothing.
use mathlib.Core.Option.{none-ne-some, some-injective}
use mathlib.Core.Bool.{false≢true}
use defiads.Prelude.{
  ℕ, ◌+◌, ◌%◌, ◌^◌, ◌≤◌, ◌≡◌, refl, sym, ap, ◌∙◌, subst, arith, Bool, true, false, ◌&&◌, none, some,
  Option-cases, ◌↔◌, inl, inr, Bool-cases, leb, Run, ok, panic, ◌>>=◌, ◌==◌, ==_iff,
}
use defiads.World.{World}
use defiads.Trunk.{Trunk}
use defiads.Contents.{Content}
use defiads.Store.{Store, commitment, find_output, admissible, accept, add_content}

leb_iff : (a b : ℕ) → (leb a b ≡ true) ↔ (a ≤ b)
leb_iff a b = ground arith

module _ (w : World) (trunk : Trunk w) (c : Content w) where
  abbrev block_hash : ℕ
  block_hash = w.get_block_hash c.funding

  -- What a proved ad must show: its block is on the trunk and the term has not ended, the header of
  -- the block has the merkle root of the proof, and the transaction, of version 2 or above, pays the
  -- script that commits to the ad.
  pub record IsAdmitted (height : ℕ) (header : w.Header) (value : ℕ) : Type 0 where
    pub on_trunk : trunk.get_height block_hash ≡ some height
    pub unexpired : trunk.len ≤ (height + c.term) % 2 ^ 32
    pub in_block : trunk.get_header block_hash ≡ some header
    pub proved : w.merkle_root header ≡ w.proof_merkle_root c.funding
    pub version : 2 ≤ w.version (w.get_transaction c.funding)
    pub pays : find_output w (commitment w c) (w.output (w.get_transaction c.funding)) ≡ some value

  pub admissible-IsAdmitted :
      (height : ℕ) (header : w.Header) (value : ℕ)
      → IsAdmitted height header value
      → admissible w trunk c ≡ some (height, header, value)
  unfolding admissible
  admissible-IsAdmitted height header value h =
      let live : leb trunk.len ((height + c.term) % 2 ^ 32) ≡ true = (leb_iff _ _).1 h.unexpired in
      let rooted : (w.merkle_root header == w.proof_merkle_root c.funding) ≡ true =
        (==_iff _ _).1 h.proved in
      let modern : leb 2 (w.version (w.get_transaction c.funding)) ≡ true =
        (leb_iff _ _).1 h.version in
      rw (admissible, h.on_trunk, live, h.in_block, rooted, modern, h.pays)

  both_true : (a b : Bool) → a && b ≡ true → (a ≡ true) × (b ≡ true)
  both_true true b e = (refl, e)
  both_true false b e = absurd (false≢true e)

  -- The conditions that the tests of `admissible` found.
  found :
      {height : ℕ} {header : w.Header} {value : ℕ} (n : ℕ) (hd : w.Header) (v : ℕ)
      → trunk.get_height block_hash ≡ some n
      → leb trunk.len ((n + c.term) % 2 ^ 32) ≡ true
      → trunk.get_header block_hash ≡ some hd
      → w.merkle_root hd == w.proof_merkle_root c.funding
          && leb 2 (w.version (w.get_transaction c.funding))
        ≡ true
      → find_output w (commitment w c) (w.output (w.get_transaction c.funding)) ≡ some v
      → Path (ℕ × w.Header × ℕ) (n, hd, v) (height, header, value)
      → IsAdmitted height header value
  found n hd v p q r t o e =
      let (rooted, modern) = both_true _ _ t in
      subst (λ (a : ℕ × w.Header × ℕ). IsAdmitted (a.0) (a.1) (a.2)) e
        (record {
          on_trunk = p;
          unexpired = (leb_iff _ _).0 q;
          in_block = r;
          proved = (==_iff _ _).0 rooted;
          version = (leb_iff _ _).0 modern;
          pays = o;
        })

  pub IsAdmitted-admissible :
      (height : ℕ) (header : w.Header) (value : ℕ)
      → admissible w trunk c ≡ some (height, header, value)
      → IsAdmitted height header value
  unfolding admissible
  IsAdmitted-admissible height header value e = elim (Option-cases (trunk.get_height block_hash)) [
    | inl p ↦ absurd (none-ne-some _ (rw (admissible, p) at e))
    | inr (n, p) ↦ elim (Bool-cases (leb trunk.len ((n + c.term) % 2 ^ 32))) [
      | inr q ↦ absurd (none-ne-some _ (rw (admissible, p, q) at e))
      | inl q ↦ elim (Option-cases (trunk.get_header block_hash)) [
        | inl r ↦ absurd (none-ne-some _ (rw (admissible, p, q, r) at e))
        | inr (hd, r) ↦
            elim (Bool-cases (
              w.merkle_root hd == w.proof_merkle_root c.funding
              && leb 2 (w.version (w.get_transaction c.funding)))) [
                | inr t ↦ absurd (none-ne-some _ (rw (admissible, p, q, r, t) at e))
                | inl t ↦
                    elim (Option-cases
                      (find_output w (commitment w c) (w.output (w.get_transaction c.funding)))) [
                        | inl o ↦ absurd (none-ne-some _ (rw (admissible, p, q, r, t, o) at e))
                        | inr (v, o) ↦
                            found n hd v p q r t o
                              (some-injective _ _ (rw (admissible, p, q, r, t, o) at e))
                      ]
              ]
      ]
    ]
  ]

  abbrev answer_of : Bool × Store w → Run (Bool × Store w) → Bool
  answer_of d (ok r) = r.0
  answer_of d panic = d.0

  not_rejected :
      (s : Store w) (r : Run (Store w))
      → ◌>>=◌ {B = Bool × Store w} r (λ s'. ok (true, s')) ≡ ok (false, s)
      → ⊥
  not_rejected s r e = false≢true (sym (ap (answer_of (true, s)) e) ∙ says_yes r)
    where
      says_yes : (q : Run (Store w)) → answer_of (true, s) (q >>= λ s'. ok (true, s')) ≡ true
      says_yes (ok s') = refl
      says_yes panic = refl

  -- The guards let a proved ad through, with a height, a header and a value, exactly when it is
  -- admitted with these; an ad that they do not let through is answered by false and leaves the store
  -- as it was.
  pub admissible_iff :
      (s : Store w)
      → ((height : ℕ) (header : w.Header) (value : ℕ)
          → (admissible w trunk c ≡ some (height, header, value)) ↔ IsAdmitted height header value)
        × ((admissible w trunk c ≡ none) ↔ (add_content w trunk c s ≡ ok (false, s)))
  unfolding add_content
  admissible_iff s = (
    λ height header value.
        (IsAdmitted-admissible height header value, admissible-IsAdmitted height header value),
    (
      λ e. rw (add_content, e),
      λ e. elim (Option-cases (admissible w trunk c)) [
        | inl p ↦ p
        | inr (a, p) ↦
            absurd (not_rejected s (accept w c (a.0) (a.1) (a.2) s) (rw (add_content, p) at e))
      ],
    ),
  )
