-- ===== src/Flow.antt =====
-- Credit-based flow control of one stream direction: the sender's gate, the receiver's pump, and the
-- counter by which the receiver replenishes the sender's credit.
pub mod CreditGate
pub mod StreamPump
pub mod Meter
pub mod Link
