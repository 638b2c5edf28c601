-- ===== src/Batch.antt =====
-- src/batch_socket.rs: batches of UDP packets. The results of the socket calls are arguments, and
-- `A` is the type of socket addresses. `Send` has the sending batch, `Recv` the receiving one.
pub mod Send
pub mod Recv
mod Tests
