-- ===== src/Channel.antt =====
-- lib/Channel.js, and the handlers of lib/client.js and lib/server.js that act on a channel.
-- A channel is a record; what it asks of the protocol, of the stream library and of callbacks is the
-- list `log`, oldest first. A chunk is its bytes: `bufferSlice(data, p, len)` is `drop p data`, and the
-- loops of `_write` keep what stands behind `p` instead of `p`. The outgoing window is a number that
-- grows by the peer's adjustments; the incoming one is an integer, since `-=` may take it below zero.
pub mod Model
pub mod Writing
pub mod Control
pub mod Send
pub mod Flow
pub mod Written
pub mod Resume
pub mod Stale
pub mod Phase
pub mod Operations
pub mod Returning
pub mod Lifecycle
mod Tests
