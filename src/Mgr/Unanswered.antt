-- ===== src/Mgr/Unanswered.antt =====
-- A User-Authorization-Answer of this stack at a client of this stack: `diaBuildUaa` (diaCx/src/diaCxUar.c)
-- and `diaMgr_onMsg` (common/src/diaMgr.c).
use diameter.Common.{ℕ, ◌+◌, ◌≤◌, ◌≡◌, refl, true, Option, none, some, List, [], length}
use diameter.Msg.{CmdHdrInfo, MsgDecoded}
use diameter.Wire.Buf.{MBuf, BufLaws}
use diameter.Wire.Shape.{wire_all}
use diameter.Wire.Encode.{EncAvps}
use diameter.Wire.Decode.{done, decode_msg}
use diameter.Wire.Message.{MsgOut}
use diameter.Wire.MessageTrip.{received}
use diameter.Cmd.Lists.{ListLaws}
use diameter.Cmd.Encoders.{Feature}
use diameter.Cmd.Trip.{Sendable}
use diameter.Cmd.Cx.{CxEnv}
use diameter.Cmd.Cx.Uaa.{ResultCode, ServerCap, opt_server_cap, build_uaa}
use diameter.Cmd.Cx.UserOrder.{opt_group}
use diameter.Cmd.Cx.Heads.{one_of}
use diameter.Cmd.Cx.UaaTrip.{uaa_list, build_uaa-decoded}
use diameter.Conn.Routing.{peer_msg}
use diameter.Mgr.Table.{TableOps}
use diameter.Mgr.Pending.{Mgr, call, on_decoded, mgr_on_msg}

module _ (cx : CxEnv) (laws : ListLaws cx.lists) (buf_laws : BufLaws cx.env.ops) where
  -- A User-Authorization-Answer that this stack builds is a request for the one who receives it: it goes
  -- to the application of the connection, if that has one, with no data of a request, and the
  -- request that it answers stays in the table with its timer. The answer
  -- is without AVPs of the application, its capabilities are within the bounds, it can be sent, and
  -- there is fuel for as many AVPs as there are bytes.
  pub build_uaa-unanswered :
      (n : ℕ) (sess_id : List ℕ) (r : ResultCode) (f : Option Feature) (name : Option (List ℕ))
      (cap : Option ServerCap) (caps : Option EncAvps) (ids : CmdHdrInfo) (b : MBuf)
      → opt_server_cap cap ≡ some (opt_group 603 caps)
      → Sendable cx.env 300 (uaa_list cx sess_id r f name caps) ids b
      → 20 + length (wire_all 300 (uaa_list cx sess_id r f name caps)) ≤ n
      → (h : TableOps) (notify : Option ℕ) (z : Mgr)
      → (out : MsgOut) × (c : MBuf) × (m : MsgDecoded) × (build_uaa cx
            (some (ids, sess_id))
            (some r)
            (one_of f)
            name
            cap
            []
          ≡ some (some out))
        × (out.msg ≡ some c)
        × (decode_msg cx.env.ops n (received c) ≡ done (some m))
        × (mgr_on_msg h (some notify) peer_msg (some m) z
            ≡ (true, record z { notes = call notify (some m) none z.notes }))
  unfolding mgr_on_msg on_decoded
  build_uaa-unanswered n sess_id r f name cap caps ids b ec s fuel h notify z =
      let w = build_uaa-decoded cx laws buf_laws n sess_id r f name cap caps ids b ec s fuel in
      (w.0, w.1, _, w.2, w.3, w.4, refl)
