-- ===== src/Lib.antt =====
-- A model of the East validator, a node of a proof-of-stake chain, and its correctness.
--
-- The program keeps accounts, supply buckets and blocks in one database (internal/state), takes
-- transactions into a pool (internal/mempool), agrees on the next block by rounds of votes
-- (internal/consensus) and exchanges blocks with peers (internal/p2p). It catches up with the chain
-- from an archive or a peer (internal/sync) and is asked over HTTP (internal/api). The engine, the proposer's
-- schedule, the pool and the store share state by pointers; here they are fields of one `Node`, and
-- what the engine does is functions from a node to a node.
--
-- Which file models which part, by the paths of the repository:
--   Prelude: shared notation, native numbers with their wrap written out, texts as lists of code
--     points, decimal and hexadecimal formats, Go maps as association lists.
--   Errors: the errors of the program and its `(value, error)` results.
--   Crypto: internal/crypto/eip191.go. What it calls of go-ethereum and of crypto/sha256 is the
--     record `Crypto`, which the definitions take as a parameter. Crypto/Recovery has what it relies
--     on of them, as the record `Signing` of named hypotheses.
--   Tx: internal/tx/tx.go (Hash, ValidateBasic, VerifySignature, ParseClaimMiningPayload).
--   Genesis: internal/genesis/genesis.go (Default, Validate).
--   State: internal/state. State/Accounts has the accounts and buckets of state.go and InitGenesis,
--     State/Apply has ApplyTx, State/Blocks the blocks and their pruning, State/Seed SeedAccount,
--     State/Roster is validators.go, State/Uptime is uptime.go and State/Backup is backup.go.
--   Merkle: internal/state/merkle.go and stateroot.go.
--   Mempool: internal/mempool/mempool.go.
--   Consensus: Vote is vote.go, Leader is leader.go and jail.go, Seal is seal.go with the sealing
--     functions of producer.go and bft.go, Producer is trySeal of producer.go, and Bft is bft.go:
--     Bft/Handlers has HandleProposal and HandleVote, Bft/Finalize the counting of votes and
--     commitLocked, Bft/Loop what the phases of a round do, Bft/Messages the wire format of votes.
--     Bft/Steps cuts all of it into steps, one for each critical section or message that goes out, and
--     a step of the store, the pool or the schedule for what happens between them; run_propose of
--     Bft/Loop is runPropose with nothing in between.
--   P2p: Scoring is scoring.go, BlockSync is sync.go and block_provider.go, PeerAddr is peeraddr.go.
--   Sync: internal/sync/archive.go. Sync/Archive is SyncFromArchive, with what the archive answers as
--     a parameter, Sync/Peers is SyncFromPeers with RequestBlocks of internal/p2p/sync.go, where a
--     peer is a function from the number of the request and its range to an answer.
--   Api: internal/api. Api/Server has the state and the requests, Api/Reads, Api/Writes and Api/Admin
--     the handlers of server.go, Api/Routes its table of routes and the secret, Api/Rpc is jsonrpc.go
--     and Api/Limits middleware.go. The router and JSON decoding give the request its shape.
--   Config: internal/config/config.go.
--   Validator: of cmd/validator/main.go, the choice of the validators at the start and the callbacks
--     for heartbeats, blocks and consensus messages, with ReportPeer of internal/p2p/node.go.
--   Tests: concrete data, and runs at it.
--
-- Numbers are natural numbers. A value of int64 or uint64 stands as its pattern below 2^64, and
-- the operations of Prelude/Int wrap as Go's do. Clocks are arguments. A call that reads the jail
-- may remove an expired record, so it returns the store.
--
-- Bounds and fuel: the layers of a Merkle tree are built on fuel, one step for each leaf, which is
-- enough since each layer is shorter than the one before it. The loops that ask the archive or a peer
-- are on fuel too, and what ends by running out of it ends as `unfinished`: how much fuel is enough is
-- part of the theorems on them. Showing a number takes one step of fuel for each unit, more than it
-- has digits. Every other loop is structural recursion on the list or the number that it walks.
--
-- Not modelled: JSON and the database's own errors, goroutines, timers and tickers (what they call
-- is modelled), libp2p and discovery, the handlers that only report statistics (health, metrics and
-- stats), internal/sync/statesync.go, which calls a function that does not exist, and the start and
-- shutdown in cmd/validator/main.go. A map whose order Go leaves open is walked in the order of its list.
pub mod Prelude
pub mod Errors
pub mod Crypto
pub mod Tx
pub mod Genesis
pub mod Config
pub mod Api
pub mod State
pub mod Sync
pub mod Mempool
pub mod Merkle
pub mod Consensus
pub mod P2p
pub mod Validator
pub mod Tests
