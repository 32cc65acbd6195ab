-- ===== src/Node.antt =====
-- node/src: the files of a node, its start, the testbed on one machine and the benchmark client.
pub mod Files
pub mod Services
pub mod MempoolRun
pub mod ConsensusRun
pub mod Boot
pub mod Deploy
pub mod Client
