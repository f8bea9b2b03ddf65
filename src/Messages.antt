-- ===== src/Messages.antt =====
-- src/messages.rs: the messages between peers. A user agent is the list of its characters.
use defiads.Prelude.{ℕ, List}
use defiads.World.{World}
use defiads.Keys.{NetAddress, ContentKey}
use defiads.Iblt.{Iblt}
use defiads.Contents.{Content}

pub record VersionMessage : Type 0 where
  pub version : ℕ
  pub timestamp : ℕ
  pub receiver : NetAddress
  pub sender : NetAddress
  pub nonce : ℕ
  pub user_agent : List ℕ
  pub start_height : ℕ

pub record PollContentMessage : Type 0 where
  pub tip : ℕ
  pub sketch : List ℕ
  pub size : ℕ

pub record PollAddressMessage : Type 0 where
  pub sketch : List ℕ
  pub size : ℕ

pub data Message (w : World) : Type 0 where
  version : VersionMessage → Message w
  verack : Message w
  poll_address : PollAddressMessage → Message w
  address_iblt : Iblt NetAddress → Message w
  poll_content : PollContentMessage → Message w
  content_iblt : ℕ → Iblt ContentKey → Message w
  get : List ContentKey → Message w
  content : Content w → Message w
