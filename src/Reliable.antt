-- ===== src/Reliable.antt =====
-- internal/reliable/reliable.go: the send queue with retransmission and the receive window of the
-- control channel. The mutex of each makes its methods atomic, so a method is a function on the state.
pub mod SendQueue
pub mod RecvWindow
