-- ===== src/Client.antt =====
-- The client of CMP transactions (client/).
pub mod Config
pub mod Wait
pub mod Http
pub mod Response
pub mod Exchange
pub mod Poll
pub mod Enroll
