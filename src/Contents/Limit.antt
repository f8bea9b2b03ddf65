-- ===== src/Contents/Limit.antt =====
-- `truncate_content` of src/db.rs: the rows in the order of the deletion are cut in two, and the ids
-- of the second part go.
use mathlib.Core.List.{Permᴰ, map-append}
use mathlib.Core.List.Permᴰ
use defiads.Prelude.{
  ℕ, ◌+◌, ◌%◌, ◌^◌, ◌<◌, ◌≤◌, ◌≡◌, refl, sym, ap, ◌∙◌, subst, arith, Bool, true, false, not, List,
  [], ◌∷◌, ◌++◌, filter, ltb, if◌then◌else◌, All, All-map, inl, inr, Bool-cases,
}
use defiads.Prelude.Perms.{All_perm, filter_perm}
use defiads.World.{World}
use defiads.Keys.{ContentKey}
use defiads.Contents.{Row, has_id, ids, delete_ids, over_limit, truncate_content}
use defiads.Contents.Deletion.{
  IsUnique, filter-IsUnique, named_by, not_named, content_eq_refl, content_eq_comm,
}

module _ (w : World) where
  -- The lengths of the rows.
  abbrev pub total : List (Row w) → ℕ
  total [] = 0
  total (r ∷ rows) = r.length + total rows

  -- With what comes before it, the first row passes the limit.
  abbrev pub IsOver : ℕ → ℕ → List (Row w) → Type 0
  IsOver limit size [] = Unit
  IsOver limit size (r ∷ rows) = limit < size + r.length

  pub record IsCut (limit size : ℕ) (rows : List (Row w)) : Type 0 where
    pub kept : List (Row w)
    pub gone : List (Row w)
    pub split : rows ≡ kept ++ gone
    pub named : over_limit w limit size rows ≡ ids w gone
    pub fits : size + total kept ≤ limit
    pub full : IsOver limit (size + total kept) gone

  over_limit_all :
      (limit size : ℕ) (rows : List (Row w))
      → limit < size
      → size + total rows < 2 ^ 64
      → over_limit w limit size rows ≡ ids w rows
  unfolding over_limit
  over_limit_all limit size [] over small = refl
  over_limit_all limit size (r ∷ rows) over small =
      let whole : (size + r.length) % 2 ^ 64 ≡ size + r.length = omega arith in
      let past : ltb limit (size + r.length) ≡ true = ground arith in
      rw (whole, past)
        (ap (◌∷◌ r.id) (over_limit_all limit (size + r.length) rows (omega arith) (omega arith)))

  -- A row of the loop, for the size with it.
  abbrev over_row : ℕ → ℕ → Row w → List (Row w) → List ContentKey
  over_row limit size r rows =
      let rest = over_limit w limit size rows in if ltb limit size then r.id ∷ rest else rest

  over_limit-IsCut :
      (limit size : ℕ) (rows : List (Row w))
      → size ≤ limit
      → size + total rows < 2 ^ 64
      → IsCut limit size rows
  unfolding over_limit
  over_limit-IsCut limit size [] under small = record {
    kept = [];
    gone = [];
    split = refl;
    named = refl;
    fits = omega arith;
    full = tt;
  }
  over_limit-IsCut limit size (r ∷ rows) under small =
      let whole : (size + r.length) % 2 ^ 64 ≡ size + r.length = omega arith in
      elim (Bool-cases (ltb limit (size + r.length))) [
        | inl over ↦ record {
          kept = [];
          gone = r ∷ rows;
          split = refl;
          named =
              rw (whole, over)
                (ap (◌∷◌ r.id)
                  (over_limit_all limit (size + r.length) rows (ground arith) (omega arith)));
          fits = omega arith;
          full = ground arith;
        }
        | inr fits ↦
            let c = over_limit-IsCut limit (size + r.length) rows (ground arith) (omega arith) in
            record {
              kept = r ∷ c.kept;
              gone = c.gone;
              split = ap (◌∷◌ r) c.split;
              named = ap (λ n. over_row limit n r rows) whole ∙ rw fits (c.named);
              fits = omega (arith, c.fits);
              full = subst (λ n. IsOver limit n c.gone) (omega arith) (c.full);
            }
      ]

  named_by_more :
      (q r : Row w) (rows : List (Row w))
      → named_by w rows r ≡ true
      → named_by w (q ∷ rows) r ≡ true
  named_by_more q r rows h = elim (Bool-cases (has_id w q.id r)) [
    | inl same ↦ rw same refl
    | inr other ↦ rw other h
  ]

  names_all : (rows : List (Row w)) → All (λ r. named_by w rows r ≡ true) rows
  names_all [] = tt
  names_all (r ∷ rows) = (
    rw (content_eq_refl r.id) refl,
    All-map rows (λ q h. named_by_more r q rows h) (names_all rows),
  )

  filter_nothing :
      (p : Row w → Bool) (rows : List (Row w))
      → All (λ r. p r ≡ true) rows
      → filter (λ r. not (p r)) rows ≡ []
  filter_nothing p [] h = refl
  filter_nothing p (r ∷ rows) h = rw h.0 (filter_nothing p rows h.1)

  -- Of unique rows, those that the second part does not name are the first.
  unnamed :
      (kept gone : List (Row w))
      → IsUnique w (kept ++ gone)
      → filter (λ r. not (named_by w gone r)) (kept ++ gone) ≡ kept
  unnamed [] gone u = filter_nothing (named_by w gone) gone (names_all gone)
  unnamed (r ∷ kept) gone u =
      rw (not_named w r gone (suffix_All _ kept gone u.0)) (ap (◌∷◌ r) (unnamed kept gone u.1))
    where
      suffix_All : (P : Row w → Type 0) (xs ys : List (Row w)) → All P (xs ++ ys) → All P ys
      suffix_All P [] ys h = h
      suffix_All P (x ∷ xs) ys h = suffix_All P xs ys h.1

  IsUnique-perm : {xs ys : List (Row w)} → Permᴰ xs ys → IsUnique w xs → IsUnique w ys
  IsUnique-perm Permᴰ.nil u = u
  IsUnique-perm (Permᴰ.cons {l₂ = ys} e p) u = (
    subst (λ (r : Row w). All (λ q. has_id w r.id q ≡ false) ys) e (All_perm _ p u.0),
    IsUnique-perm p u.1,
  )
  IsUnique-perm (Permᴰ.swap {a} {b} {b'} {l = xs} e f) u =
      subst (λ r. IsUnique w (r ∷ b' ∷ xs)) f
        (subst (λ r. IsUnique w (b ∷ r ∷ xs)) e
          ((content_eq_comm a.id b.id ∙ u.0.0, u.1.0), (u.0.1, u.1.1)))
  IsUnique-perm (Permᴰ.trans p q) u = IsUnique-perm q (IsUnique-perm p u)

  pub total_perm : {xs ys : List (Row w)} → Permᴰ xs ys → total xs ≡ total ys
  total_perm Permᴰ.nil = refl
  total_perm (Permᴰ.cons e p) =
      let same = ap (λ (r : Row w). r.length) e in omega (arith, same, total_perm p)
  total_perm (Permᴰ.swap e f) =
      let first = ap (λ (r : Row w). r.length) e in
      let second = ap (λ (r : Row w). r.length) f in omega (arith, first, second)
  total_perm (Permᴰ.trans p q) = total_perm p ∙ total_perm q

  -- What `truncate_content` leaves and deletes, the rows in the order of the deletion.
  pub record IsTruncated (limit : ℕ) (rows : List (Row w)) : Type 0 where
    pub cut : IsCut limit 0 (w.order_by_desc (Row w) (λ r. r.weight) rows)
    pub rest : List (Row w)
    pub named : truncate_content w limit rows ≡ (ids w cut.gone, rest)
    pub rest_perm : Permᴰ rest cut.kept
    pub total_rest : total rest ≤ limit
    pub rest_ids : Permᴰ (ids w rest ++ ids w cut.gone) (ids w rows)
    pub unique : IsUnique w rest

  pub truncate_content-IsTruncated :
      (limit : ℕ) (rows : List (Row w))
      → IsUnique w rows
      → total rows < 2 ^ 64
      → IsTruncated limit rows
  unfolding truncate_content delete_ids
  truncate_content-IsTruncated limit rows u small =
      let sorted = w.order_by_desc (Row w) (λ r. r.weight) rows in
      let p : Permᴰ sorted rows = w.order_by_desc-perm (Row w) (λ r. r.weight) rows in
      let c =
        over_limit-IsCut limit 0 sorted (omega arith)
          (subst (λ n. 0 + n < 2 ^ 64) (sym (total_perm p)) (omega arith)) in
      let stays = λ (r : Row w). not (named_by w c.gone r) in
      let whole : IsUnique w (c.kept ++ c.gone) =
        subst (IsUnique w) c.split (IsUnique-perm (Permᴰ.symm p) u) in
      let left : Permᴰ (filter stays rows) c.kept = Permᴰ.trans (filter_perm stays (Permᴰ.symm p)) (
        subst (Permᴰ (filter stays sorted))
          (ap (filter stays) c.split ∙ unnamed c.kept c.gone whole) (Permᴰ.refl _)) in
      record {
        cut = c;
        rest = filter stays rows;
        named = ap (λ gone. (gone, delete_ids w gone rows)) c.named;
        rest_perm = left;
        total_rest = subst (λ n. n ≤ limit) (sym (total_perm left)) (omega (arith, c.fits));
        rest_ids =
            Permᴰ.trans (Permᴰ.append_right (ids w c.gone) (Permᴰ.map (λ (r : Row w). r.id) left)) (
              Permᴰ.trans
                (subst (λ xs. Permᴰ xs (ids w sorted))
                  (ap (ids w) c.split ∙ map-append (λ (r : Row w). r.id) c.kept c.gone)
                  (Permᴰ.refl _))
                (Permᴰ.map (λ (r : Row w). r.id) p));
        unique = filter-IsUnique w stays rows u;
      }
