-- ===== src/Wire.antt =====
-- The messages of valuerpc: the values they are made of, their types and the checks of them
-- (valuerpc/types.go and valuerpc/verify.go), and the envelope (valuerpc/protocol.go).
pub mod Values
pub mod Verify
pub mod Protocol
