-- ===== src/Store/Truncation.antt =====
-- `truncate_to_limit` of src/store.rs: what goes, what stays, and what the store then keeps in memory.
use mathlib.Core.List.{Permᴰ, append-nil}
use defiads.Prelude.{
  ℕ, ◌+◌, ◌^◌, ◌<◌, ◌≤◌, ◌≡◌, sym, ap, ◌∙◌, subst, arith, List, [], ◌∷◌, ◌++◌, length, All, Returns,
}
use defiads.World.{World, IsFalling}
use defiads.Keys.{ContentKey}
use defiads.Contents.{Row, ids}
use defiads.Contents.Limit.{total, total_perm, IsOver, truncate_content-IsTruncated}
use defiads.Store.{Store, drop_keys, truncate_to_limit}
use defiads.Store.Sync.{
  IsSynced, HasSketch, all-IsServed, remaining, remaining_rows, drop_keys-eq, remaining-IsSynced,
  remaining-HasSketch,
}

module _ (w : World) where
  -- In an order in which the weights do not rise, the rows are those that stay and then those that go:
  -- no row that goes is heavier than one that stays, what stays is within the limit, and the first
  -- that goes would pass it.
  pub record IsWithin (limit : ℕ) (before after : List (Row w)) : Type 0 where
    pub kept : List (Row w)
    pub gone : List (Row w)
    pub split : w.order_by_desc (Row w) (λ r. r.weight) before ≡ kept ++ gone
    pub heaviest : All (λ k. All (λ (g : Row w). g.weight ≤ k.weight) gone) kept
    pub stays : Permᴰ after kept
    pub fits : total w after ≤ limit
    pub full : IsOver w limit (0 + total w kept) gone

  after_append : (P : Row w → Type 0) (xs ys : List (Row w)) → All P (xs ++ ys) → All P ys
  after_append P [] ys h = h
  after_append P (x ∷ xs) ys h = after_append P xs ys h.1

  heavier :
      (kept gone : List (Row w))
      → IsFalling (λ (r : Row w). r.weight) (kept ++ gone)
      → All (λ k. All (λ (g : Row w). g.weight ≤ k.weight) gone) kept
  heavier [] gone h = tt
  heavier (k ∷ kept) gone h = (after_append _ kept gone h.0, heavier kept gone h.1)

  -- A store with at least one table cached, over rows of fewer than 2 ^ 64 bytes, of which the
  -- tables, the sketch and the count of keys are those of the rows: truncating it to its limit does
  -- not panic. In an order in which the weights do not rise, the rows up to the first that would pass
  -- the limit stay, and no others, so that no row that goes is heavier than one that stays; what stays is within the limit, and the tables, the sketch and the count are
  -- those of what stays.
  pub truncate_to_limit-IsWithin :
      (s : Store w)
      → IsSynced w s
      → HasSketch w s
      → 0 < length s.iblts
      → total w s.rows < 2 ^ 64
      → Returns
          (truncate_to_limit w s)
          λ s'. IsWithin s.storage_limit s.rows s'.rows × IsSynced w s' × HasSketch w s'
  unfolding truncate_to_limit
  truncate_to_limit-IsWithin s h k pos small =
      let t = truncate_content-IsTruncated w s.storage_limit s.rows h.unique small in
      let gone = ids w t.cut.gone in
      let within : IsWithin s.storage_limit s.rows t.rest = record {
        kept = t.cut.kept;
        gone = t.cut.gone;
        split = t.cut.split;
        heaviest = heavier t.cut.kept t.cut.gone (
            subst (IsFalling (λ (r : Row w). r.weight)) t.cut.split
              (w.order_by_desc-IsFalling (Row w) (λ r. r.weight) s.rows));
        stays = t.rest_perm;
        fits = t.total_rest;
        full = t.cut.full;
      } in
      (
        remaining w gone t.rest s,
        ap (λ (c : List ContentKey × List (Row w)). drop_keys w (c.0) (c.1) s) t.named
            ∙ drop_keys-eq w gone t.rest s (all-IsServed w s.rows s.iblts h.tables),
        (
          subst (IsWithin s.storage_limit s.rows) (sym (remaining_rows w gone t.rest s)) within,
          remaining-IsSynced w gone t.rest s t.rest_ids t.unique h,
          remaining-HasSketch w gone t.rest s t.rest_ids pos k,
        ),
      )

  total-append : (xs ys : List (Row w)) → total w (xs ++ ys) ≡ total w xs + total w ys
  total-append [] ys = omega arith
  total-append (x ∷ xs) ys = omega (arith, total-append xs ys)

  all_kept :
      (limit : ℕ) (kept gone : List (Row w))
      → IsOver w limit (0 + total w kept) gone
      → total w (kept ++ gone) ≤ limit
      → kept ++ gone ≡ kept
  all_kept limit kept [] over fits = append-nil kept
  all_kept limit kept (r ∷ gone) over fits = absurd (omega (arith, total-append kept (r ∷ gone)))

  -- Rows that are within the limit all stay.
  pub IsWithin-perm :
      (limit : ℕ) (before after : List (Row w))
      → IsWithin limit before after
      → total w before ≤ limit
      → Permᴰ after before
  IsWithin-perm limit before after h fits =
      let p = w.order_by_desc-perm (Row w) (λ r. r.weight) before in
      let whole : total w (h.kept ++ h.gone) ≤ limit =
        subst (λ n. n ≤ limit) (sym (total_perm w p) ∙ ap (total w) h.split) fits in
      Permᴰ.trans h.stays
        (subst (λ rows. Permᴰ rows before) (h.split ∙ all_kept limit h.kept h.gone h.full whole) p)
