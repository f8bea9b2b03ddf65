-- ===== src/Wire.antt =====
-- The envelope of messages and their wire format: src/messages.rs and `BiadnetP2PConfig` of
-- src/p2p_defiads.rs. serde_cbor, of which the reading of a buffer is an argument, and the buffer of
-- murmel are libraries.
use defiads.Prelude.{
  ℕ, min, bit_xor, Bool, true, false, Option, none, some, List, ltb, if◌then◌else◌,
}
use defiads.World.{World}
use defiads.Keys.{NetAddress}
use defiads.Keys.Socket
use defiads.Keys.Socket.{SocketAddr}
use defiads.Messages.{Message, version, verack}

abbrev pub magic : ℕ
magic = 45485

abbrev pub max_protocol_version : ℕ
max_protocol_version = 1

abbrev pub min_protocol_version : ℕ
min_protocol_version = 1

-- `2^26` is an exclusive or.
abbrev pub max_message_size : ℕ
max_message_size = bit_xor 2 26

pub record Envelope (w : World) : Type 0 where
  pub magic : ℕ
  pub payload : Message w

-- `VersionCarrier` of murmel, the part that is not constant.
pub record VersionCarrier : Type 0 where
  pub version : ℕ
  pub receiver : NetAddress
  pub sender : NetAddress
  pub user_agent : List ℕ
  pub start_height : ℕ
  pub timestamp : ℕ
  pub nonce : ℕ

-- What serde_cbor reads off the buffer: nothing, an envelope, an end before one is complete, or what
-- is none.
pub data Attempt (w : World) : Type 0 where
  nothing end_of_file malformed : Attempt w
  read : Envelope w → Attempt w

-- What `decode` does with the buffer.
pub data OnBuffer : Type 0 where
  keep rollback commit : OnBuffer

-- The answer of `decode`: an error, or perhaps an envelope.
pub data Decoded (w : World) : Type 0 where
  invalid_input : Decoded w
  decoded : Option (Envelope w) → Decoded w

module _ {w : World} where
  unfoldable pub is_verack : Message w → Bool
  is_verack verack = true
  is_verack m = false

  unfoldable pub is_version : Message w → Option VersionCarrier
  is_version (version v) = some (record {
    version = v.version;
    receiver = v.receiver;
    sender = v.sender;
    user_agent = v.user_agent;
    start_height = v.start_height;
    timestamp = v.timestamp;
    nonce = v.nonce;
  })
  is_version m = none

  -- The version message of a node; the sender is the default address.
  unfoldable pub version_message : ℕ → ℕ → List ℕ → NetAddress → SocketAddr → ℕ → Message w
  version_message nonce now user_agent default remote max_version = version (record {
    version = min max_protocol_version max_version;
    timestamp = now;
    receiver = Socket.new remote;
    sender = default;
    nonce = nonce;
    user_agent = user_agent;
    start_height = 0;
  })

  unfoldable pub wrap : Message w → Envelope w
  wrap m = record { magic = magic; payload = m }

  unfoldable pub unwrap : Envelope w → Message w
  unwrap e = e.payload

  -- The length is that of the buffer.
  unfoldable pub decode : Attempt w → ℕ → Decoded w × OnBuffer
  decode nothing len =
      if ltb max_message_size len then (invalid_input, keep) else (decoded none, rollback)
  decode (read e) len = (decoded (some e), commit)
  decode end_of_file len = (decoded none, rollback)
  decode malformed len = (invalid_input, keep)
