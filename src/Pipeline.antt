-- ===== src/Pipeline.antt =====
-- patterns/pipeline.py: one pusher, any number of pullers that share a lock.
pub mod Pusher
pub mod Puller
pub mod Claim
pub mod Queue
pub mod Calls
pub mod Start
