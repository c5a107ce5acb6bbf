-- ===== src/Bind.antt =====
-- app/bind: handing an accepted and quoted risk to the policy service.
pub mod Interfaces
pub mod Service
pub mod HttpClient
pub mod Conflicts
pub mod Endings
pub mod Ends
pub mod Rebind
pub mod Token
pub mod Outcomes
pub mod Nats
pub mod NatsRetries
pub mod Overlap
