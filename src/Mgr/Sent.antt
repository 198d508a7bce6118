-- ===== src/Mgr/Sent.antt =====
-- A Location-Info-Request of the application, on its way to the peer and back: diaCx/src/diaCxLir.c and
-- common/src/diaMgr.c.
use diameter.Common.{
  ℕ, ◌+◌, ◌<◌, ◌≤◌, ◌≡◌, refl, sym, ap, ◌∙◌, arith, true, false, Option, some, ◌==◌, List, [],
  length,
}
use diameter.Msg.{OsStatus, status_ok, MsgDecoded, get_sess_id}
use diameter.Dict.Rows.{find_row}
use diameter.Dict.Base.{base_rows_1, base_rows_2}
use diameter.Dict.Cx.{cx_rows_1, cx_rows_2, cx_reused_rows}
use diameter.Dict.Info.{get_avp_info, base_get_avp_info, cx_get_avp_info, cx_get_reused_avp_info}
use diameter.Conn.Types.{tcp_ok}
use diameter.Conn.Routing.{has_flag}
use diameter.Wire.Buf.{MBuf, BufLaws}
use diameter.Wire.Encode.{EncAvps}
use diameter.Wire.Shape.{wire_all, FitsAll}
use diameter.Wire.Decode.{done, decode_msg}
use diameter.Wire.Decoded.{decoded_all}
use diameter.Wire.Message.{MsgOut}
use diameter.Wire.MessageTrip.{received}
use diameter.Cmd.Lists.{ListLaws}
use diameter.Cmd.Encoders.{Feature, sess_text, max_session_id_len}
use diameter.Cmd.Cx.{vendor_3gpp}
use diameter.Cmd.Cx.Lir.{build_lir}
use diameter.Cmd.Cx.LirTrip.{lir_list, build_lir-decoded}
use diameter.Mgr.Table.{TableOps, TableLaws}
use diameter.Mgr.Pending.{Mgr, callback_or, call, send_app_msg, on_decoded, is_base_cmd}
use diameter.Mgr.Senders.{ActiveDcb, Call, LirInput, send_lir, send_on, no_ids, one_feature}
use diameter.Mgr.Once.{sent, send-answer}

-- The application gives no AVPs of its own.
abbrev pub lir_input : List ℕ → ℕ → ℕ → LirInput
lir_input impu uat features = record {
  impu = some impu;
  user_auth_type = uat;
  feature_list = features;
  extra = [];
}

abbrev pub feature_of : ℕ → Feature
feature_of n = record { vendor_id = vendor_3gpp; feature_list_id = 1; feature_list = n }

module _ (c : Call) (impu : List ℕ) (uat features : ℕ) (d : ActiveDcb) where
  abbrev pub sent_list : EncAvps
  sent_list = lir_list c.cx impu d.peer_host d.peer_realm (feature_of features) uat

  abbrev key : List ℕ
  key = sess_text c.cx.sess c.cx.env.host

  abbrev waiting_lir : Mgr → OsStatus × Mgr
  waiting_lir s =
      send_app_msg (some d.id) (some d.id) c.transport_send (some key) c.callback c.app_data
        c.elem_id c.timer_id s

  lir_sent :
      (out : MsgOut) (b : MBuf) (s : Mgr)
      → c.active ≡ some d
      → build_lir c.cx
          (some impu)
          (some d.peer_host)
          (some d.peer_realm)
          (some (one_feature features))
          uat
          []
          (some no_ids)
        ≡ some (some out)
      → out.msg ≡ some b
      → send_lir c (some (lir_input impu uat features)) s ≡ some (waiting_lir s)
  unfolding send_lir send_on
  lir_sent out b s ha hb hm = simp (ha, hb, hm)

  status_of :
      (s : Mgr) → c.transport_send d.id ≡ tcp_ok → waiting_lir s ≡ (status_ok, (waiting_lir s).1)
  status_of s h =
      let e =
        sent d.id (some d.id) c.transport_send key c.callback c.app_data c.elem_id c.timer_id s h in
      e ∙ sym (ap (λ (r : OsStatus × Mgr). (status_ok, r.1)) e)

  decoded_sess_id :
      (len h2h e2e : ℕ)
      → get_sess_id (record {
        cmd_code = 302;
        cmd_flag = 0xC0;
        len = len;
        app_id = 16777216;
        h2h_id = h2h;
        e2e_id = e2e;
        avp_list = decoded_all 302 sent_list;
      })
        ≡ some key
  unfolding get_sess_id get_avp_info base_get_avp_info cx_get_avp_info cx_get_reused_avp_info
      find_row base_rows_1 base_rows_2 cx_rows_1 cx_rows_2 cx_reused_rows decoded_all
  decoded_sess_id len h2h e2e = refl

  -- An application that asks for the location of an identity, while there is an active connection that
  -- the transport sends on, gets the status of success, and the peer decodes the message that is built as
  -- one with the AVPs of a Location-Info-Request. When a message comes back that is neither a request nor a base
  -- command and has the session id that the peer has decoded, the application is called once, with that
  -- message and its own data, and the table and the timers are as they were before the request. The
  -- session id is shorter than 200 bytes, the values fit their types, the message the allocation and the
  -- 24 bits of its length, the timer has an id, and there is fuel for as many AVPs as there are bytes.
  pub send_lir-answered :
      (list_laws : ListLaws c.cx.lists) (buf_laws : BufLaws c.cx.env.ops) (h : TableOps)
      (table_laws : TableLaws h) (n : ℕ) (b : MBuf) (notify : Option ℕ) (m : MsgDecoded) (s : Mgr)
      → c.active ≡ some d
      → c.transport_send d.id ≡ tcp_ok
      → (c.timer_id == 0) ≡ false
      → c.cx.env.fresh ≡ some b
      → length key < max_session_id_len
      → FitsAll 302 sent_list
      → 20 + length (wire_all 302 sent_list) ≤ b.size
      → 20 + length (wire_all 302 sent_list) < 0x100_0000
      → 20 + length (wire_all 302 sent_list) ≤ n
      → is_base_cmd m.cmd_code ≡ false
      → has_flag 0x80 m.cmd_flag ≡ false
      → get_sess_id m ≡ some key
      → (s' : Mgr) × (out : MsgOut) × (buf : MBuf) × (seen : MsgDecoded) × (build_lir c.cx
            (some impu)
            (some d.peer_host)
            (some d.peer_realm)
            (some (one_feature features))
            uat
            []
            (some no_ids)
          ≡ some (some out))
        × (out.msg ≡ some buf)
        × (send_lir c (some (lir_input impu uat features)) s ≡ some (status_ok, s'))
        × (decode_msg c.cx.env.ops n (received buf) ≡ done (some seen))
        × (seen.avp_list ≡ decoded_all 302 sent_list)
        × (get_sess_id seen ≡ get_sess_id m)
        × (on_decoded h notify m s' ≡ (
          true,
          record {
            nodes = s.nodes;
            timers = s.timers;
            notes = call (callback_or c.callback notify) (some m) (some c.app_data) s.notes;
          },
        ))
  send_lir-answered list_laws buf_laws h table_laws n b notify m s ha ht hz fresh short fits room
        small fuel hb hr hk =
      let w =
        build_lir-decoded c.cx list_laws buf_laws n uat impu d.peer_host d.peer_realm
          (feature_of features) no_ids b fresh short fits (omega arith) (omega arith) room small
          fuel in
      (
        (waiting_lir s).1,
        w.0,
        w.1,
        _,
        w.2,
        w.3,
        lir_sent (w.0) (w.1) s ha (w.2) (w.3) ∙ ap some (status_of s ht),
        w.4,
        refl,
        decoded_sess_id _ _ _ ∙ sym hk,
        send-answer h table_laws d.id (some d.id) c.transport_send key c.callback notify c.app_data
            c.elem_id c.timer_id m s ht hz hb hr hk,
      )
