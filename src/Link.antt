-- ===== src/Link.antt =====
-- The RaptorQ processing host and the edge receiver together: what the receiver does with the source
-- symbols of a block, in the order in which the host sends them.
pub mod Passed
pub mod Step
pub mod Find
pub mod Block
pub mod EndToEnd
mod Tests
