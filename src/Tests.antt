-- ===== src/Tests.antt =====
-- Concrete runs of the theorems, on small inputs that the program could meet.
mod Journal
mod Faults
mod Scopes
mod Replay
mod Drift
mod Routes
mod Alert
mod Webhooks
mod Baseline
mod PathTemplates
mod Volatile
mod Mode
mod Sanitize
mod Recorder
mod Rules
mod Divergence
mod Envelope
mod Operations
