-- ===== src/Lib.antt =====
-- A model of a HotStuff-style DAG protocol: its consensus (consensus/src), its store (store/src),
-- its network (network/src), its mempool (mempool/src) and the node that starts them (node/src).
-- In the consensus every node leads a chain of blocks of its own, one chain at a time is the
-- leader's, and a timeout starts a binary agreement on the height at which the leader's chain is
-- cut.
--
-- The parts and their files:
--   Error and Exec: consensus/src/error.rs; the outcomes of a call (a value, an error, a panic,
--     and no return within the fuel), and methods that mutate a state and may fail.
--   Crypto: crypto/src/lib.rs, Signature::verify and Signature::verify_batch over primitives
--     that are parameters; Keys is the text of keys in base64, Service the signature service with
--     Signature::new.
--   Config: consensus/src/config.rs, the committee and its thresholds in u32 arithmetic.
--   Messages: consensus/src/messages.rs, one child for each message with its digest, its
--     construction and its verification; Tally is the counting loop that three of them share.
--   Aggregator: consensus/src/aggregator.rs; the children are QCMaker (QcVotes), TCMaker
--     (Timeouts), ABAProofMaker (AbaVals) and ABARandomCoinMaker (CoinShares).
--   Leader: consensus/src/leader.rs.
--   World: the messages, the trace of what the core does to and asks of its surroundings, and
--     the answers from outside as functions of that trace.
--   Core: consensus/src/core.rs. State holds the structs; Outside the calls of the synchronizer
--     (consensus/src/synchronizer.rs) and the mempool driver (consensus/src/mempool.rs); Voting,
--     Commit and Proposals the chains; Aba the binary agreement; ViewChange update_aba_phase and
--     check_timeout; Run the loop. Alive is about what the loop can be sent without ending, with a
--     child for each of these parts.
--   Store: store/src/lib.rs, the task that owns the database, with the senders that wait for a
--     key.
--   Synchronizer: consensus/src/synchronizer.rs, the background task that fetches missing
--     blocks.
--   Filter: consensus/src/filter.rs, the task that may hold a proposal back before it goes to
--     the network.
--   Network: network/src/lib.rs, the sender with a worker for each address, and the tasks on
--     both sides of a connection.
--   Mempool: the crate mempool. Error, Config, Messages and Front are the files of these names;
--     Payload is mempool/src/payload.rs, State and Core are mempool/src/core.rs, Synchronizer is
--     mempool/src/synchronizer.rs.
--   Node: node/src. Files is config.rs with the disk that it reads and writes; Boot is Node::new
--     of node.rs; MempoolRun and ConsensusRun are the starts that it calls, mempool/src/mempool.rs
--     and consensus/src/consensus.rs, and Services the tasks that they spawn; Deploy is the
--     testbed of main.rs and the printing of keys of node.rs; Client is client.rs.
--   Examples: the theorems at concrete inputs.
--
-- How the parts interact: the loop (Core.Run.step) takes a message from one of two channels, runs
-- its handler on a clone of the chain that the message names, puts the clone back, and then runs
-- update_aba_phase and check_timeout on the leader's chain. A handler talks to the network, the
-- store, the synchronizer's task, the mempool and the application only through events, which it
-- adds to the trace; an answer may depend on the whole trace. The core is one task, so a handler
-- is not interrupted by another. The store, the two synchronizers, the mempool core, the payload
-- maker, the filter and the network sender are tasks of their own, each a step function over the
-- messages, the ready futures and the timer ticks that it may take next; a task sees the others as
-- answers that may depend on all that it has done. The database, bincode, the clock, and the order
-- and the capacity of a HashSet are parameters.
--
-- Numbers: u64 and u32 arithmetic wraps around as in a release build. Keys, digests and signatures
-- are the numbers that their bytes write. A HashMap is an association list in the order of its
-- iteration.
--
-- Fuel: handle_vote calls itself when a node's own vote completes a quorum, and commit_prev_block
-- follows references to other chains; both take fuel, and say so when it runs out.
-- Core.Proposals.Termination is about how much handle_vote and handle_proposal need, by the lemmas
-- of Core.Proposals.Fuel, Core.Commit.Recursion about how deep commit_prev_block goes with a
-- leader that refers to its own chain, and Core.Commit.Depth with one that does not. The loop over
-- heights in commit_prev_block needs none.
--
-- Not modelled: the sockets under the network, the command lines of the node and the client, the
-- wait of the client for the nodes, the generation of keys and the benchmark scripts; logging and
-- sleeping.
mod Prelude
pub mod Error
pub mod Exec
pub mod Crypto
pub mod Config
pub mod Messages
pub mod Leader
pub mod Aggregator
pub mod Store
pub mod World
pub mod Core
pub mod Synchronizer
pub mod Mempool
pub mod Network
pub mod Filter
pub mod Node
mod Examples
