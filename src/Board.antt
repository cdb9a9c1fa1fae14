-- ===== src/Board.antt =====
-- app/api/routes/listings.py: the handlers that write, over the state of the process.
pub mod Monad
pub mod Create
pub mod Change
pub mod Owner
pub mod Facts
pub mod Responses
pub mod FactTypes
pub mod Typed
pub mod Search
pub mod Keeps
pub mod Requests
pub mod Writes
pub mod Outcomes
pub mod Authority
pub mod Frames
pub mod Passed
pub mod Transfer
pub mod Again
pub mod Ends
pub mod Answers
