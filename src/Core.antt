-- ===== src/Core.antt =====
-- core.py: the header of a segment, its fields, and the life of a segment under its name.
pub mod Header
pub mod Fields
pub mod Segments
pub mod Objects
