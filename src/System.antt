-- ===== src/System.antt =====
-- The service as a whole: the committed tables and the world outside, under any sequence of requests.
pub mod Run
pub mod Pricing
pub mod Steps
pub mod Views
pub mod RoundTrip
pub mod Answers
pub mod Overlap
pub mod Signed
pub mod Secured
pub mod Refines
pub mod RefinesBind
pub mod RefinesSeed
pub mod Runs
pub mod Growth
pub mod Sound
pub mod Audit
pub mod Frozen
pub mod Seeding
pub mod Replay
pub mod Locked
pub mod Draws
pub mod Keys
pub mod Lifespan
pub mod Flow
pub mod References
