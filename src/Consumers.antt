-- ===== src/Consumers.antt =====
-- mq/consumers: the queue of one consumer group on one node, and the subscriptions that share it.
-- The data is in `Data`, group.go in `Group`, subscription.go in `Subscription`; the proofs are in
-- the other children.
mod Tests
pub mod Data
pub mod Group
pub mod Subscription
pub mod Ring
pub mod Window
pub mod Loops
pub mod Contents
pub mod Refinement
pub mod Settling
pub mod Steps
pub mod History
pub mod Accounting
pub mod Turns
pub mod Stuck
pub mod Closing
