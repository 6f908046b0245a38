-- ===== src/Cluster.antt =====
-- mq/cluster_state*.go: the replicated state of the cluster and the commands of its log.
-- The data is in `Data`, cluster_state_queries.go in `Queries`, one file of commands in each of
-- `Namespaces`, `Topics`, `Groups`, `Segments` and `Nodes`, and the store in `Store`.
mod Tests
pub mod Data
pub mod Sort
pub mod Insertion
pub mod Queries
pub mod Namespaces
pub mod Topics
pub mod Groups
pub mod Segments
pub mod Nodes
pub mod Store
pub mod Lookup
pub mod Created
pub mod Deleted
pub mod Invariant
pub mod NodeList
pub mod Preserved
pub mod Removed
pub mod Commands
pub mod Searching
