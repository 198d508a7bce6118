-- ===== src/Mgr/Senders.antt =====
-- `diaCx_sendLIR`, `diaCx_sendSAR` and `diaCx_sendUAR` (diaCx/src/diaCxLir.c, diaCx/src/diaCxSar.c,
-- diaCx/src/diaCxUar.c). `none` is undefined behaviour. The session id that is set is the text of its
-- encoder.
use diameter.Common.{ℕ, Option, none, some, List, [], ◌∷◌, ◌>>=◌}
use diameter.Msg.{OsStatus, null_pointer, system_failure, CmdHdrInfo}
use diameter.Conn.Types.{TransportStatus}
use diameter.Wire.Message.{MsgAvp, MsgOut}
use diameter.Cmd.Encoders.{Feature, sess_text}
use diameter.Cmd.Cx.{CxEnv, vendor_3gpp}
use diameter.Cmd.Cx.Lir.{build_lir}
use diameter.Cmd.Cx.Sar.{SarInfo, build_sar}
use diameter.Cmd.Cx.Uar.{AuthType, build_uar}
use diameter.Mgr.Pending.{Mgr, send_app_msg}

-- What the active connection of the interface has: its id, and the host and realm of the peer.
pub record ActiveDcb : Type 0 where
  pub id : ℕ
  pub peer_host : List ℕ
  pub peer_realm : List ℕ

-- The parameters of a call: the builders', `diaConnGetActiveDcbByIntf` as it answers the first time
-- and, since each answer moves the group's next peer on, the second; `transport_send`, the callback
-- and the data of the application, and the node and the timer that a request gets.
pub record Call : Type 0 where
  pub cx : CxEnv
  pub active : Option ActiveDcb
  pub next_active : Option ActiveDcb
  pub transport_send : ℕ → TransportStatus
  pub callback : Option ℕ
  pub app_data : ℕ
  pub elem_id : ℕ
  pub timer_id : ℕ

abbrev pub no_ids : CmdHdrInfo
no_ids = record { h2h_id = 0; e2e_id = 0 }

abbrev pub one_feature : ℕ → List Feature
one_feature n = record { vendor_id = vendor_3gpp; feature_list_id = 1; feature_list = n } ∷ []

-- A message that was not made is an error of the system.
abbrev pub when_made : (Mgr → OsStatus × Mgr) → Mgr → Option MsgOut → OsStatus × Mgr
when_made send s none = (system_failure, s)
when_made send s (some out) = elim out.msg [ none ↦ (system_failure, s) | some b ↦ send s ]

unfoldable pub send_on : Call → Option ℕ → Mgr → OsStatus × Mgr
unfolding send_app_msg
send_on c dcb s =
    send_app_msg dcb (elim c.next_active [ none ↦ none | some d ↦ some d.id ]) c.transport_send
      (some (sess_text c.cx.sess c.cx.env.host)) c.callback c.app_data c.elem_id c.timer_id s

-- `diaCxLirAppInput_t`.
pub record LirInput : Type 0 where
  pub impu : Option (List ℕ)
  pub user_auth_type : ℕ
  pub feature_list : ℕ
  pub extra : List MsgAvp

unfoldable pub send_lir : Call → Option LirInput → Mgr → Option (OsStatus × Mgr)
unfolding build_lir send_on
send_lir c none s = some (null_pointer, s)
send_lir c (some i) s = elim i.impu [
  | none ↦ some (null_pointer, s)
  | some impu ↦ elim c.active [
    | none ↦ some (system_failure, s)
    | some d ↦
        build_lir c.cx (some impu) (some d.peer_host) (some d.peer_realm)
          (some (one_feature i.feature_list)) i.user_auth_type i.extra (some no_ids)
        >>= λ r. some (when_made (send_on c (some d.id)) s r)
  ]
]

-- `diaCxSarAppInput_t`.
pub record SarInput : Type 0 where
  pub impi : Option (List ℕ)
  pub impu : Option (List ℕ)
  pub server_name : Option (List ℕ)
  pub sar_info : Option SarInfo
  pub feature_list : ℕ
  pub extra : List MsgAvp

-- The identity, the server and the assignment are not null.
abbrev pub sar_given : SarInput → Option (List ℕ × List ℕ × SarInfo)
sar_given i =
    i.impu >>= λ impu. i.server_name >>= λ server. i.sar_info >>= λ info. some (impu, server, info)

unfoldable pub send_sar : Call → Option SarInput → Mgr → Option (OsStatus × Mgr)
unfolding build_sar send_on
send_sar c none s = some (null_pointer, s)
send_sar c (some i) s = elim (sar_given i) [
  | none ↦ some (null_pointer, s)
  | some g ↦ elim c.active [
    | none ↦ some (system_failure, s)
    | some d ↦
        build_sar c.cx i.impi (some (g.0)) (some (g.1)) (some d.peer_host) (some d.peer_realm)
          (some (g.2)) (some (one_feature i.feature_list)) i.extra (some no_ids)
        >>= λ r. some (when_made (send_on c (some d.id)) s r)
  ]
]

-- `diaCxUarAppInput_t`.
pub record UarInput : Type 0 where
  pub auth_type : AuthType
  pub impi : Option (List ℕ)
  pub impu : Option (List ℕ)
  pub feature_list : ℕ
  pub extra : List MsgAvp

abbrev pub uar_given : UarInput → Option (List ℕ × List ℕ)
uar_given i = i.impi >>= λ impi. i.impu >>= λ impu. some (impi, impu)

-- The visited network is the configured realm. `diaSendAppMsg` gets no connection, and looks for the
-- active one a second time, which can give another peer than the one that the message is built for.
unfoldable pub send_uar : Call → Option UarInput → Mgr → Option (OsStatus × Mgr)
unfolding build_uar send_on
send_uar c none s = some (null_pointer, s)
send_uar c (some i) s = elim (uar_given i) [
  | none ↦ some (null_pointer, s)
  | some g ↦ elim c.active [
    | none ↦ some (system_failure, s)
    | some d ↦
        build_uar c.cx (some (g.0)) (some (g.1)) (some c.cx.env.realm) i.auth_type
          (some d.peer_host) (some d.peer_realm) i.feature_list i.extra (some no_ids)
        >>= λ r. some (when_made (send_on c none) s r)
  ]
]
