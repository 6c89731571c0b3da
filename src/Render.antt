-- ===== src/Render.antt =====
-- The ANSI renderer of dosshd/render.c.
pub mod State
pub mod Emit
pub mod Frame
pub mod Terminal
