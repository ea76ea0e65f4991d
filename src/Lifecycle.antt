-- ===== src/Lifecycle.antt =====
-- The life of a segment, from core.py's `create_segment` to `close_segment`: what is proved of it.
pub mod Init
pub mod Table
pub mod Create
pub mod Attach
pub mod Fresh
pub mod Reach
pub mod Refused
pub mod Close
