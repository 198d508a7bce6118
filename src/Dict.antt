-- ===== src/Dict.antt =====
-- The AVP dictionary: the data type, the flags and the vendor of an AVP code
-- (common/src/diaAvpHelper.c, diaCx/src/diaCx.c).
pub mod Rows
pub mod Base
pub mod Cx
pub mod Info
pub mod Facts
pub mod BaseCodes
pub mod CxCodes
pub mod Listed
pub mod Agrees
mod Tests
