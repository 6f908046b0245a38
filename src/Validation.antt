-- ===== src/Validation.antt =====
-- mq/emq/request_validation.go: what a request is refused for. `Rules` has the methods, `Accepted` what
-- is proved of them.
pub mod Rules
pub mod Accepted
mod Tests
