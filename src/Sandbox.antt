-- ===== src/Sandbox.antt =====
-- internal/sandbox: the parts of the sandbox engine that keep state between requests.
pub mod Seeding
pub mod Journal
pub mod Windows
pub mod Deliveries
pub mod Scopes
pub mod RecordedIds
pub mod Faults
pub mod Routes
pub mod Operations
pub mod Envelope
pub mod Rules
