-- ===== src/Reconcile.antt =====
-- mq/reconciler*.go: what the leader makes of the state of the cluster, as commands that it applies.
-- `Outcome` is what the parts share, `Open` and `Closed` are reconciler_segments.go, `Groups`
-- reconciler_consumer_groups.go, `Members` reconciler_nodes.go and reconciler_namespaces.go; the
-- other children are what is proved of them.
pub mod Outcome
pub mod Replicas
pub mod Open
pub mod Closed
pub mod Groups
pub mod Keys
pub mod Kept
pub mod Picks
pub mod Commits
pub mod Wanted
pub mod Candidates
pub mod OpenBalance
pub mod ClosedBalance
pub mod OpenSettled
pub mod ClosedSettled
pub mod Retention
pub mod Upkeep
mod Tests
pub mod Placement
pub mod Completion
pub mod Largest
pub mod Promoted
pub mod Members
pub mod Membership
