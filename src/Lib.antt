-- ===== src/Lib.antt =====
-- A verification library for a Diameter stack in C: the connections to Diameter peers, the AVP
-- dictionary, the encoding and decoding of messages, the messages that the stack builds, and the
-- requests that wait for an answer.
--
-- The program. `diaMgr_onMsg` (common/src/diaMgr.c) gets events of the TCP transport. Connection
-- events and base messages go to the state machine of the peer (common/src/diaConnState.c), which
-- sends CER, DWR and DPR through `diaSendCommonMsg`, keeps its timers, and moves the peer between
-- the lists of its group (common/src/diaConnMgr.c). Application messages are encoded and decoded by
-- common/src/diaMsg.c and common/src/diaAvp.c; both take the type, the flags and the vendor of an
-- AVP from the dictionary (common/src/diaAvpHelper.c for the base protocol, diaCx/src/diaCx.c for
-- Cx).
--
-- The modules.
--   Common: Boolean tests, lists over the native numbers, `|` on disjoint fields.
--   Msg: the types of common/include/diaMsg.h and diaAvp.h (Types); `dia_GetResultCode`,
--     `diaMsg_getSessId`, `diaCx_getExpCode` and the lookup of an AVP (Lookup).
--   Conn: the state machine. Types has the control block and the peer group; Os the timers, the
--     transport, the peer lists and the message builders, which are parameters with laws; Cea
--     `diaConnProcessCea`; Steps the timers, `diaConnMgr_startConn`, `diaConnMgr_stopConn`,
--     `diaSendCommonMsg`, the notifications and `diaConnStateEnterState`; Connecting and Connected
--     one function for each `diaConnState..._onMsg`, and `diaConnState_onMsg`. A handler is a
--     function from the state, the event, the message and the timer id to the new state, or to
--     `none` where the code dereferences a null pointer. Routing is `diaConnMgr_onMsg`, which makes
--     events of the transport's, and `diaConnGetActiveDcb`. Peers is `diaConnMgr_getDcb`. Provision
--     has `diaConnMgr_init`, `diaConn_initIntf`, `diaConnProv`, `diaConnAddNewPeer` and
--     `diaConnGetActiveDcbByIntf`, with the clean-up of a control block; Interfaces is
--     about `diaConnProv`, and Provisioned about what the initialisation leaves behind. Runs has
--     lists of events; Graph the edges of the state graph; Membership the lists that a peer is on;
--     Timers the timer that runs in each state, and Watched the life of a
--     client connection, in messages and expiries; Silence a peer that says nothing any more, and
--     Reopen one that comes back; Demo a concrete environment for Tests.
--   Dict: the dictionary. Base and Cx are the switches over the code as tables, a row for a case,
--     in the order of the source; Info reads them as `diaGetAvpInfo`, `diaGetAvpDataType` and
--     `diaGetAvpEncodeDataType` do; BaseCodes and CxCodes are the enumerations of the codes in
--     common/include/diaBaseAvp.h and diaCx/include/diaCxAvp.h. Facts is what the tables guarantee to
--     the code that reads them; Listed relates them to the enumerations, Agrees the types with and
--     without a command.
--   Cmd: the messages. Lists has `diaOptListFindAndRemoveAvp`, `diaOptListGetNextAndRemoveAvp` and
--     the loops over them; Parts the steps that all builders consist of, on the list of the message
--     and the two lists of optional AVPs; Moved, Rules, Codes and Trailer what the steps do to the
--     lists. Param is what all builders share; Encoders common/src/diaCommonAvpEncode.c, and
--     Spelled the bytes that it writes; Trip is what a message needs on its way.
--     Watchdog is diaBase/src/diaBaseDwr.c, Capabilities the builders of
--     diaBase/src/diaBaseCer.c; WatchdogTrip, CapsOrder and CapsAnswer are about them.
--     Cx has the head that all Cx requests share, and in Cx/Lir, Cx/Sar, Cx/Mar, Cx/Uar and Cx/Uaa
--     the builders of diaCx/src/diaCxLir.c, diaCxSar.c, diaCxMar.c and diaCxUar.c; Cx/Answer is
--     what diaCxUar.c reads from an answer. Cx/Order and Cx/UserOrder, with Cx/Layout, are the
--     order of the AVPs; Cx/AuthItem, Cx/ServerCaps and Cx/LirTrip are about an item of a MAR, the
--     capabilities of a UAA and the decoding of a LIR; Cx/UarTrip, Cx/SarTrip and Cx/MarTrip, with
--     Cx/Heads, about the other requests at their receiver, Cx/UaaTrip and Cx/UaaRead about a UAA.
--   Config: common/src/diaConfig.c. Table has the names, the rows `diaConfig_xmlData` and
--     `diaConfig_getConfig`; Typed the types of the rows, with the parser as a parameter with laws;
--     Init `diaConfig_init`; Access the functions that read a value; Profile what a configuration
--     that was read says. Common is the message that `diaSendCommonMsg` builds from it, and Caps and
--     CapsTrip are about the capabilities exchange that comes of it, from the configuration of one
--     side to the connection of the other.
--   Mgr: the waiting requests. Table is the hash table `diaHash` and its timers, which are
--     parameters with laws; Pending `diaMgr_onMsg`, `diaSendAppMsg` and `dia_onTimeout` of
--     common/src/diaMgr.c; Senders `diaCx_sendLIR`, `diaCx_sendSAR` and `diaCx_sendUAR`; Start
--     `dia_init`. Steps has the calls as a step relation; Paired and Kept are about the table and
--     the timers, Once about what comes for a request, and Sent about a LIR from the application to
--     the answer. Spec is what the table is for its users, a map from session ids; Refined and
--     Refines relate the table to it. Refs has the references to the connections, `osmemref` and
--     `osmemderef` of a control block, beside the calls, and Counted is about their number.
--     Unanswered is about a UAA of this stack.
--   Build: `diaAvpAddList` (AddList) and `diaAvpGrp_create` and `diaAvpGrp_addAvp` (Group), by
--     which a command collects its AVPs; Cleanup is the memory of those, and what frees it.
--   Wire: bytes. Words has the byte orders, Buf `osMBuf_t` and its operations, which are parameters
--     with laws; Header and Flags are `dia_encodeHdr`, `diaMsg_decodeHdr` and
--     `diaMsg_updateCmdFlag...`; Encode is `diaAvp_encode`, Decode `diaAvp_decode` and
--     `diaMsg_decode`, Message `diaMsg_encode`. Shape is the layout of RFC 6733, written
--     independently of the encoder. Fields, Written, Held, Decoded, Fuel, RoundTrip, MessageWritten
--     and MessageTrip relate the code to it; Endless is about an AVP with the length zero.
--
-- Integers are native numbers; a 32-bit or 64-bit value has its wrap-around written out. The host
-- is little-endian, as `htobe32` and `htobe64` are modelled by swaps of bytes. `none` and
-- `undefined` stand for undefined behaviour (a null pointer dereferenced, a read outside the
-- allocation, a union read as what it does not hold). The decoder runs on fuel that counts AVPs, of
-- which each has eight bytes or more in a sound message; running out of fuel is a value of its own,
-- apart from undefined behaviour. The loops over the option lists run on one more than the length
-- of the list, which is enough, as each round takes an element. An AVP that a builder keeps in a
-- block after the end of the block is read as what it was.
--
-- Not modelled: osMBuf, osList, osHash, osTimer, the transport, the clock, the printer of strings
-- and the XML parser, which are not in this repository and are parameters; memory reclamation, but
-- for the references of the requests and the AVPs that are sent; log output; the test program
-- (diaCx/src/diaCxTest.c). Outside of Config the values of the configuration are parameters.
pub mod Build
pub mod Cmd
pub mod Common
pub mod Config
pub mod Conn
pub mod Dict
pub mod Mgr
pub mod Msg
pub mod Wire
