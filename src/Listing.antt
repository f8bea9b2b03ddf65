-- ===== src/Listing.antt =====
-- The lists that the api shows: `list_categories`, `list_abstracts` and `retrieve_contents` of
-- src/db.rs, and their use by src/store.rs. Strings are compared by their bytes.
use defiads.Prelude.{ℕ, Bool, not, List, [], ◌∷◌, map, filter, any, Run, ok, ◌>>=◌}
use defiads.World.{World}
use defiads.Trunk.{Trunk}
use defiads.Contents.{Row}
use defiads.Addresses.{same_bytes}
use defiads.Readable.{Readable, readable}

module _ (w : World) where
  abbrev pub same_text : w.codec.Str → w.codec.Str → Bool
  same_text a b = same_bytes (w.codec.utf8 a) (w.codec.utf8 b)

  -- `select distinct`
  unfoldable pub distinct : List w.codec.Str → List w.codec.Str
  distinct [] = []
  distinct (s ∷ rest) = s ∷ filter (λ t. not (same_text t s)) (distinct rest)

  unfoldable pub list_categories : List (Row w) → List w.codec.Str
  unfolding distinct
  list_categories rows =
      w.order_by_text w.codec.Str (λ cat. cat) (λ cat. 0)
        (distinct (map (λ (r : Row w). r.cat) rows))

  -- `where cat in (…)`
  abbrev pub is_listed : List w.codec.Str → Row w → Bool
  is_listed cats r = any (same_text r.cat) cats

  unfoldable pub list_abstracts : List w.codec.Str → List (Row w) → List (List w.codec.Str)
  list_abstracts cats rows =
      map (λ (r : Row w). w.id_text r.id ∷ r.cat ∷ r.abs ∷ [])
        (w.order_by_text (Row w) (λ r. r.cat) (λ r. r.weight) (filter (is_listed cats) rows))

  -- The rows of `retrieve_contents`: `where id in (…)`, by falling weight.
  unfoldable pub retrieve_contents : List w.codec.Str → List (Row w) → List (Row w)
  retrieve_contents ids rows =
      w.order_by_desc (Row w) (λ r. r.weight)
        (filter (λ r. any (same_text (w.id_text r.id)) ids) rows)

  unfoldable pub readables : (w.Header → ℕ) → Trunk w → List (Row w) → Run (List (Readable w))
  readables time trunk [] = ok []
  readables time trunk (r ∷ rows) = do
    shown ← readable w time trunk r
    rest ← readables time trunk rows
    ok (shown ∷ rest)

  -- `ContentStore::read_contents`
  unfoldable pub read_contents :
      (w.Header → ℕ) → Trunk w → List w.codec.Str → List (Row w) → Run (List (Readable w))
  unfolding readables retrieve_contents
  read_contents time trunk ids rows = readables time trunk (retrieve_contents ids rows)
