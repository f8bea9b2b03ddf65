-- ===== src/Publications.antt =====
-- The table `publication` of src/db.rs, the ads that were prepared here, and its use by src/store.rs.
-- The id, the hex text of the digest of the ad, is the digest.
use defiads.Prelude.{
  ℕ, ◌%◌, ◌^◌, ◌≡◌, refl, sym, ap, subst, false, not, Option, none, some, List, [], ◌∷◌, map, inl,
  inr, filter, length, if◌then◌else◌, Run, ok, panic, ◌>>=◌, Returns, Bool-cases,
}
use defiads.Ad
use defiads.Ad.{Ad}
use defiads.Text.{as_string, as_string-new}
use defiads.World.{World}
use defiads.Keys.{ContentKey, content_eq, content_eq_iff}
use defiads.Contents.{digest}

pub record Publication (w : World) : Type 0 where
  pub id : ContentKey
  pub cat : w.codec.Str
  pub abs : w.codec.Str
  pub text : w.codec.Str
  pub length : ℕ

module _ (w : World) where
  abbrev pub Publications : Type 0
  Publications = List (Publication w)

  -- The query for an id.
  unfoldable pub find_publication : ContentKey → Publications → Option (Publication w)
  find_publication id [] = none
  find_publication id (p ∷ ps) = if content_eq p.id id then some p else find_publication id ps

  unfoldable pub read_publication : ContentKey → Publications → Option (Ad w.codec)
  unfolding find_publication
  read_publication id ps = elim (find_publication id ps) [
    | none ↦ none
    | some p ↦ some (Ad.new w.codec p.cat p.abs p.text)
  ]

  unfoldable pub list_publication : Publications → List ContentKey
  list_publication ps = map (λ (p : Publication w). p.id) ps

  -- The text of the ad is `expect`ed to decode; `insert or replace`. The list stands for the table in
  -- no order: the key is the id, and a query may read the rows in any order.
  unfoldable pub prepare_publication : Ad w.codec → Publications → Run (ContentKey × Publications)
  prepare_publication ad ps = do
    decoded ← as_string w.codec ad.content
    elim decoded [
      | none ↦ panic
      | some text ↦ ok (
        digest w ad,
        record {
          id = digest w ad;
          cat = ad.cat;
          abs = ad.abs;
          text = text;
          length = length (w.cbor ad) % 2 ^ 32;
        }
            ∷ filter (λ p. not (content_eq p.id (digest w ad))) ps,
      )
    ]

  -- `ContentStore::prepare_publication`
  unfoldable pub prepare :
      w.codec.Str → w.codec.Str → w.codec.Str → Publications → Run (ContentKey × Publications)
  prepare cat abs content ps = prepare_publication (Ad.new w.codec cat abs content) ps

  read_others :
      (id other : ContentKey) (ps : Publications)
      → content_eq id other ≡ false
      → find_publication other (filter (λ p. not (content_eq p.id id)) ps)
        ≡ find_publication other ps
  unfolding find_publication
  read_others id other [] h = refl
  read_others id other (p ∷ ps) h = elim (Bool-cases (content_eq p.id id)) [
    | inr kept ↦
        rw kept (
          ap (λ found. if content_eq p.id other then some p else found) (read_others id other ps h))
    | inl gone ↦
        let e : content_eq p.id other ≡ false =
          subst (λ (x : ContentKey). content_eq x other ≡ false)
            (sym ((content_eq_iff p.id id).0 gone)) h in
        rw (gone, e) (read_others id other ps h)
  ]

  list_others :
      (id : ContentKey) (ps : Publications)
      → list_publication (filter (λ p. not (content_eq p.id id)) ps)
        ≡ filter (λ x. not (content_eq x id)) (list_publication ps)
  unfolding list_publication
  list_others id [] = refl
  list_others id (p ∷ ps) = elim (Bool-cases (content_eq p.id id)) [
    | inr kept ↦ rw kept (ap (◌∷◌ p.id) (list_others id ps))
    | inl gone ↦ rw gone (list_others id ps)
  ]

  -- A prepared ad does not panic. It is read back under the digest that is given for it, every other
  -- id is read as before, and the list of ids has the digest and, in their order, the others.
  pub read-prepare :
      (cat abs content : w.codec.Str) (ps : Publications)
      → Returns (prepare cat abs content ps) λ r.
        (r.0 ≡ digest w (Ad.new w.codec cat abs content))
        × (read_publication r.0 r.1 ≡ some (Ad.new w.codec cat abs content))
        × ((other : ContentKey)
            → content_eq r.0 other ≡ false
            → read_publication other r.1 ≡ read_publication other ps)
        × (list_publication r.1 ≡ r.0 ∷ filter (λ x. not (content_eq x r.0)) (list_publication ps))
  unfolding prepare prepare_publication read_publication list_publication find_publication Ad.new
  read-prepare cat abs content ps =
      let ad = Ad.new w.codec cat abs content in
      let id = digest w ad in
      rw (as_string-new w.codec content) (
        _,
        refl,
        (
          refl,
          rw (read_publication, (content_eq_iff id id).1 refl) refl,
          (λ other h.
              rw (read_publication, h)
                (ap
                  (λ found. elim found as (λ _. Option (Ad w.codec)) [
                    | none ↦ none
                    | some p ↦ some (Ad.new w.codec p.cat p.abs p.text)
                  ])
                  (read_others id other ps h))),
          ap (◌∷◌ id) (list_others id ps),
        ),
      )
