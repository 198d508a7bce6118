-- ===== src/Msg.antt =====
-- A received message in memory: `diaMsgDecoded_t` and `diaAvp_t` (common/include/diaMsg.h,
-- common/include/diaAvp.h), and the enumerations that the components share.
mod Types
mod Lookup
unfoldable pub use Types.*
unfoldable pub use Lookup.*
