-- ===== src/FileSystem.antt =====
-- src/file_system.c and inc/file_system.h: the tree of named nodes, and the chains of blocks that have
-- the bytes of files. `lock` and `unlock` are left out, since each operation is one step.
pub mod Blocks
pub mod Names
pub mod Nodes
mod Tests
