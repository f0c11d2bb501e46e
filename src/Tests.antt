-- ===== src/Tests.antt =====
-- Runs of the models at concrete inputs.
mod Text
mod Agent
mod Store
mod Tables
mod Hub
mod Alerting
mod Api
mod Auth
