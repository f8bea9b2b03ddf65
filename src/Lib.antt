-- ===== src/Lib.antt =====
-- defiads: a peer-to-peer network that distributes ads. An ad is valid as long as a bitcoin output
-- that commits to it is locked; nodes replicate ads by comparing sketches of their sets of keys and
-- by exchanging invertible bloom lookup tables.
--
-- The parts, and the files that model them:
--   Iblt, BucketIterator, IbltIterator   src/iblt.rs: the table (`IBLT`), the loop over the buckets of
--     a key (`BucketIterator`) and the iterator that peels keys off a table (`IBLTIterator`)
--   Sketch                               src/iblt.rs: `min_sketch`, `add_to_min_sketch`,
--     `estimate_diff_size`
--   IbltKey, Keys                        the trait `IBLTKey`, and its two implementations:
--     `ContentKey` of src/content.rs and `NetAddress` of src/discovery.rs, which Keys/Socket turns into
--     sockets and back
--   Text, Ad                             src/text.rs and src/ad.rs
--   Contents, Publications, Outgoing     the tables of src/db.rs: `content`, with src/content.rs;
--     `publication`; `txout`, `processed`, `coins` and `account`
--   Listing                              the lists of ads of src/db.rs and src/store.rs
--   Trunk                                src/trunk.rs and `ChainDBTrunk` of src/p2p_defiads.rs
--   Store, Readable                      src/store.rs: the ads of `ContentStore`; `Readable`
--   Wallet, Wallet/Payment               src/wallet.rs: `Wallet`; its `fund` and `withdraw`
--   Ledger                               src/store.rs: `ContentStore` with its wallet and tables
--   Api, Api/Arguments                   src/api.rs: the methods, and the reading of their arguments
--   Messages, Wire, Updater              src/messages.rs and src/updater.rs: the messages, their
--     envelope with `BiadnetP2PConfig` of src/p2p_defiads.rs, and their handlers
--   Addresses                            src/db.rs: the seed and the table `address`
--   Discovery                            src/discovery.rs: the handlers of messages
--   Connections                          src/p2p_defiads.rs: `KeepConnected`, `AddressPoolMaintainer`
--   Seeds                                src/find_peers.rs; the peers and seeds of a start
--   BlockDownload, with Headers, Service src/blockdownload.rs: the queues of blocks; what is wanted
--     of the chain of headers; every message
--   BitcoinPeers                         src/p2p_bitcoin.rs: the driver of the store, and the peers
--   SendTx                               src/sendtx.rs: the handlers of messages
--   Start                                src/defiads/main.rs: from the options to the store
--   World                                what the program takes from libraries, as parameters
--   Prelude                              helpers; Tests: runs and inputs of the theorems
--
-- The start opens the wallet and the store from the tables; the driver then makes up for the
-- blocks that came or left meanwhile. A call of the api reads its arguments and calls the ledger;
-- the driver of src/p2p_bitcoin.rs gives the ledger the headers and blocks that the block download
-- found. The ledger, which is `ContentStore` as a whole, calls the wallet, the tables and the
-- store of ads, and gives the transactions to send as a part of its result. The transaction sender
-- reads those that are unconfirmed. The updater holds the store of ads and calls it, the estimate
-- and the iterator; it gives the messages that it sends as actions. The store calls the content
-- table, the iblts and the sketch; it keeps an iblt for each size that was asked and one sketch,
-- both of the ids of the rows. Code that may panic is of the type `Run`, and a fault that the code
-- returns is a value of `Result` or `Reply`. u32, u64 and usize are ℕ, with a remainder where the
-- code may pass the width, and an i32 is its bit pattern (Prelude/Int32).
--
-- A table of SQLite is a list of its rows. Its order is the model's, newest first: where a query has
-- no `order by`, the rows come by their key, and only what does not depend on the order is the
-- program's.
--
-- Fuel: `grow_size`, the loop that picks the size of a table, runs on 8 rounds, which reach the
-- greatest size. The loops of `BucketIterator` run on fuel `k`, one round for each hash function,
-- which Dedup shows to be enough. `compile`, the loop that sets the fee of a transaction, runs on 2
-- rounds, which Wallet/Settling shows to be enough where signing works as it should. `walk_back`, the
-- walk of the driver from the block that was processed last to the trunk, runs on fuel, and panics
-- without; BitcoinPeers/Reorg shows that fuel above the height of that block is enough. `decode`, the
-- loop over the entries of a table, runs on fuel that a caller gives: the loop of the code does not
-- end on some tables that no set of keys built (IbltIterator/Endless), so its theorems say what holds
-- of every run and of those that end, and that it ends on a table of one key.
--
-- Libraries are parameters: `World` (hash functions, serde, the types of the crate bitcoin, the order
-- of SQLite), `Bank` (the crate bitcoin_wallet: master key, coins, signing), the `LruCache` of the
-- transaction sender, and the chain of headers of murmel. What the theorems need of them is in
-- hypotheses with names, and Tests has instances that keep them.
--
-- Not modelled: `Wallet::new` with its dialogue at a terminal, the start of threads and sockets,
-- the lookup of a host, the command line, the configuration file, the log and the threads of
-- src/defiads/main.rs, the conversions of src/error.rs, SQLite's own errors, the names of commands
-- and the bytes of an envelope, and the libraries (SipHash, snap, serde, bitcoin, bitcoin_wallet,
-- murmel, jsonrpc, f32).
pub mod Prelude
pub mod IbltKey
pub mod BucketIterator
pub mod Iblt
pub mod IbltIterator
pub mod Sketch
pub mod Keys
pub mod Text
pub mod Ad
pub mod World
pub mod Contents
pub mod Trunk
pub mod Store
pub mod Tests
pub mod Messages
pub mod Updater
pub mod Addresses
pub mod BlockDownload
pub mod Discovery
pub mod Connections
pub mod Readable
pub mod Wallet
pub mod Publications
pub mod Outgoing
pub mod Ledger
pub mod Listing
pub mod Api
pub mod SendTx
pub mod BitcoinPeers
pub mod Wire
pub mod Start
pub mod Seeds
