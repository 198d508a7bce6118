-- ===== src/Conn.antt =====
-- The connection state machine of one peer (common/src/diaConnState.c), the events that reach it
-- through the manager, and the two notifications by which it moves the peer between the lists of its
-- group (common/src/diaConnMgr.c).
pub mod Types
pub mod Os
pub mod Cea
pub mod Steps
pub mod Connecting
pub mod Connected
pub mod Frames
pub mod Runs
pub mod Graph
pub mod Routing
pub mod Peers
pub mod Provision
pub mod Interfaces
pub mod Provisioned
pub mod Membership
pub mod Timers
pub mod Watched
pub mod Silence
pub mod Reopen
pub mod Demo
mod Tests
mod RoutingTests
mod ProvTests
mod WatchTests
