-- ===== src/Readable.antt =====
-- `Readable` of src/store.rs, an ad as the api shows it, and the plain reads of `ContentStore`.
use defiads.Prelude.{ℕ, ◌+◌, ◌*◌, ◌%◌, ◌^◌, Option, none, some, List, Run, ok, panic}
use defiads.World.{World}
use defiads.Trunk.{Trunk}
use defiads.Keys.{ContentKey}
use defiads.Contents.{Content, Row, Queried, read_content}
use defiads.Store.{Store}

pub record Readable (w : World) : Type 0 where
  pub id : ContentKey
  pub cat : w.codec.Str
  pub abs : w.codec.Str
  pub text : w.codec.Str
  pub start : ℕ
  pub end : ℕ
  pub publisher : w.PublicKey
  pub height : ℕ
  pub term : ℕ
  pub length : ℕ
  pub weight : ℕ

module _ (w : World) where
  unfoldable pub get_nkeys : Store w → ℕ
  get_nkeys s = s.n_keys

  unfoldable pub get_sketch : Store w → List ℕ
  get_sketch s = s.min_sketch

  unfoldable pub get_content : ContentKey → Store w → Queried (Option (Content w))
  get_content x s = read_content w x s.rows

  -- `time` is the time of a header. The product with 600 is one of u16. A height with no header
  -- panics at the start, and is extrapolated at the end.
  unfoldable pub readable : (w.Header → ℕ) → Trunk w → Row w → Run (Readable w)
  readable time trunk r = elim (trunk.get_header_for_height r.height) [
    | none ↦ panic
    | some first ↦ ok (record {
      id = r.id;
      cat = r.cat;
      abs = r.abs;
      text = r.text;
      start = time first;
      end = elim (trunk.get_header_for_height ((r.height + r.term) % 2 ^ 32)) [
        | some last ↦ time last
        | none ↦ (time first + r.term * 600 % 2 ^ 16) % 2 ^ 64
      ];
      publisher = r.publisher;
      height = r.height;
      term = r.term;
      length = r.length;
      weight = r.weight;
    })
  ]
