-- ===== src/Tests.antt =====
-- Tests of the definitions on small inputs, and each theorem applied to one.
mod Worlds
mod Witnesses
mod Replays
mod Models
mod Feedbacks
mod Analyses
mod Ingestion
