-- ===== src/Server.antt =====
-- The CMP server (server/).
pub mod Entry
pub mod Tracker
pub mod Config
pub mod Response
pub mod State
pub mod CertRequest
pub mod Crmf
pub mod Revocation
pub mod Ca
pub mod Policy
pub mod CertConf
pub mod PollReq
pub mod Revoke
pub mod Protection
pub mod Header
pub mod Process
