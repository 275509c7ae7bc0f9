-- ===== src/Tools.antt =====
-- The tools of src/tools that change files.
pub mod EditFile
