-- ===== src/Tests.antt =====
-- Concrete inputs, and the theorems at them.
mod Answers
mod Data
mod Limits
mod Keys
mod Auth
mod Statements
mod Handlers
mod Sync
mod Browse
mod Verifier
mod Responses
mod Shown
mod Script
mod Import
