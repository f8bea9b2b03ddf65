-- ===== src/Ad.antt =====
-- src/ad.rs: an ad, the payload of distributed content.
use defiads.Text
use defiads.Text.{Codec, Text}

pub record Ad (c : Codec) : Type 0 where
  pub cat : c.Str
  pub abs : c.Str
  pub content : Text

-- `Ad::new`
unfoldable pub new : (c : Codec) → c.Str → c.Str → c.Str → Ad c
new c cat abs content = record { cat = cat; abs = abs; content = Text.new c content }
