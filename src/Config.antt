-- ===== src/Config.antt =====
-- The configuration: common/src/diaConfig.c and common/include/diaConfig.h, and the common messages that
-- are built from it (`diaSendCommonMsg` of common/src/diaMgr.c).
pub mod Table
pub mod Typed
pub mod Init
pub mod Access
pub mod Profile
pub mod Common
pub mod Caps
pub mod CapsTrip
mod Tests
