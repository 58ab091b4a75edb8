-- ===== src/Core.antt =====
-- src/core: the buffer that a link parses its input from.
pub mod ReadBuffer
