-- ===== src/Examples.antt =====
-- The theorems on concrete inputs, and tests of the definitions.
mod FlowControl
mod Sessions
mod Governance
mod Messages
mod Requests
mod Exchanges
mod Frames
mod Admissions
mod Streams
mod InFlight
mod Routes
mod Remote
mod Callers
