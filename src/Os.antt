-- ===== src/Os.antt =====
-- os: the file layer of the guest's operating system.
pub mod Path
pub mod Files
