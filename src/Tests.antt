-- ===== src/Tests.antt =====
-- Runs of the model on small inputs, and the theorems at inputs that meet their hypotheses.
mod Tracker
mod Fixtures
mod Requests
mod Certpath
mod Libraries
mod Protection
mod Client
