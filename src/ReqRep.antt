-- ===== src/ReqRep.antt =====
-- patterns/reqrep.py: one requester and one replier, with a segment for each direction.
pub mod Replier
pub mod Requester
pub mod Service
