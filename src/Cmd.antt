-- ===== src/Cmd.antt =====
-- The messages that the stack builds: diaBase/src/diaBaseCer.c, diaBase/src/diaBaseDwr.c, the Cx
-- commands of diaCx/src, and the list helpers of common/src/diaAvpHelper.c that they share.
pub mod Lists
pub mod Parts
pub mod Moved
pub mod Rules
pub mod Trailer
pub mod Param
pub mod Encoders
pub mod Spelled
pub mod Trip
pub mod Watchdog
pub mod WatchdogTrip
pub mod Capabilities
pub mod Codes
pub mod CapsOrder
pub mod CapsAnswer
pub mod Cx
pub mod Demo
mod Tests
mod CxTests
mod UaaTests
mod TripTests
mod MarTests
