-- ===== src/Handlers.antt =====
-- mq/server_*.go: what a request makes of the state of the cluster, once it runs in a transaction on
-- the leader. `Opening` is server_segment_create.go, `Closing` the files of the segment's end; the
-- other children are what is proved of them.
pub mod Opening
pub mod Generations
pub mod Replication
pub mod Answers
pub mod Places
pub mod Closing
pub mod Copies
pub mod Rotation
pub mod Requests
pub mod Running
pub mod Effects
mod Tests
pub mod Bound
