-- ===== src/Match.antt =====
-- mq/match.go: which messages the bindings of a consumer group ask for. `Keys` has the matching of
-- a routing key, `Messages` that of a message; the other children are what is proved of them.
mod Tests
pub mod Keys
pub mod Messages
pub mod Bindings
pub mod Words
pub mod Topics
