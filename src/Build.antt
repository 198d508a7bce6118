-- ===== src/Build.antt =====
-- The lists of AVPs that a command is made of: `diaAvpAddList` (common/src/diaAvpHelper.c) and the
-- groups (common/src/diaAvp.c).
pub mod AddList
pub mod Group
pub mod Cleanup
mod Tests
