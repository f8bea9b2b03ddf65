-- ===== src/Updater/Size.antt =====
-- The size of the table that a peer sends.
use defiads.Prelude.{
  ℕ, zero, suc, ◌*◌, ◌/◌, ◌≤◌, ◌<◌, ◌≡◌, ◌⊎◌, refl, arith, inl, inr, Bool-cases, ltb, ◌&&◌,
}
use defiads.Updater.{grow_size, iblt_size, minimum_iblt_size, maximum_iblt_size}

-- What the loop reaches in a number of rounds.
abbrev reach : ℕ → ℕ → ℕ
reach zero size = size
reach (suc fuel) size = reach fuel (size * 4)

reach_grows : (fuel size : ℕ) → size ≤ reach fuel size
reach_grows zero size = omega arith
reach_grows (suc fuel) size = omega (arith, reach_grows fuel (size * 4))

pub record IsSizeFor (diff least size : ℕ) : Type 0 where
  pub above : least ≤ size
  pub below : size ≤ maximum_iblt_size
  pub enough : (diff ≤ size) ⊎ (size ≡ maximum_iblt_size)
  pub small : (size ≡ least) ⊎ (size / 4 < diff)

grow_size-IsSizeFor :
    (fuel diff size : ℕ)
    → reach fuel size ≡ maximum_iblt_size
    → IsSizeFor diff size (grow_size fuel diff size)
unfolding grow_size
grow_size-IsSizeFor zero diff size e = record {
  above = omega arith;
  below = omega arith;
  enough = inr e;
  small = inl refl;
}
grow_size-IsSizeFor (suc fuel) diff size e =
    let bound = reach_grows fuel (size * 4) in
    let ih = grow_size-IsSizeFor fuel diff (size * 4) e in
    elim (Bool-cases (ltb size maximum_iblt_size && ltb size diff)) [
      | inl again ↦
          let less : size < diff = ground arith in
          rw again (record {
            above = omega (arith, ih.above);
            below = ih.below;
            enough = ih.enough;
            small = elim ih.small [ inl same ↦ inr (omega arith) | inr s ↦ inr s ];
          })
      | inr done ↦ rw done (record {
        above = omega arith;
        below = omega arith;
        enough = ground arith;
        small = inl refl;
      })
    ]

-- The size of the table for a difference of some keys, at any difference: it lies between the least
-- and the greatest size, it holds the difference or is the greatest, and it is the least or a quarter
-- of it would not hold the difference.
pub iblt_size-IsSizeFor : (diff : ℕ) → IsSizeFor diff minimum_iblt_size (iblt_size diff)
iblt_size-IsSizeFor diff = grow_size-IsSizeFor 8 diff minimum_iblt_size refl
