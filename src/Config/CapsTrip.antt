-- ===== src/Config/CapsTrip.antt =====
-- The capabilities exchange from the configuration of one side to the connection of the other:
-- `diaSendCommonMsg` (common/src/diaMgr.c), `diaMsg_decode` (common/src/diaMsg.c), `diaConnProcessCea`
-- (diaBase/src/diaBaseCer.c) and the state that waits for the answer (common/src/diaConnState.c).
use diameter.Common.{
  ℕ, ◌+◌, ◌≤◌, ◌<◌, ◌≡◌, refl, sym, ap, ◌∙◌, arith, Bool, true, false, some, length, ◌>>=◌,
}
use diameter.Msg.{CmdHdrInfo, MsgDecoded, status_ok}
use diameter.Dict.Rows.{find_row}
use diameter.Dict.Base.{base_rows_1, base_rows_2}
use diameter.Dict.Info.{get_avp_info, base_get_avp_info}
use diameter.Wire.Words.{be3, be4}
use diameter.Wire.Buf.{MBuf, BufLaws}
use diameter.Wire.Shape.{wire, wire_all, Fits, FitsAll}
use diameter.Wire.Decode.{done, decode_msg}
use diameter.Wire.Decoded.{decoded, decoded_all}
use diameter.Wire.Message.{MsgOut}
use diameter.Wire.MessageTrip.{received, decode_msg-encode_msg}
use diameter.Cmd.Lists.{ListOps, ListLaws}
use diameter.Cmd.Param.{Env}
use diameter.Conn.Types.{Dcb, rcv_cea, opened, twt}
use diameter.Conn.Os.{Os, cer}
use diameter.Conn.Steps.{Sys, stop_if_set}
use diameter.Conn.Frames.{enter_state-dcb}
use diameter.Conn.Cea.{process_cea}
use diameter.Conn.Connecting.{after_cea, client_wait_cea_on_msg}
use diameter.Conn.Provision.{IntfType}
use diameter.Config.Init.{Config}
use diameter.Config.Access.{app_id_of}
use diameter.Config.Profile.{Profile, Says}
use diameter.Config.Common.{enough, common_msg}
use diameter.Config.Caps.{caps_list, caps_msg_list, caps_flag, capabilities_msg-list}

-- The texts of a configuration fit the 24 bits of a length.
pub record Short (f : Profile) : Type 0 where
  pub host_len : 8 + length f.host < 0x100_0000
  pub realm_len : 8 + length f.realm < 0x100_0000
  pub product_len : 8 + length f.product < 0x100_0000
  pub ip_len : 8 + length f.ip < 0x100_0000

caps_list-FitsAll :
    (f : Profile) (app state_id : ℕ) → Short f → FitsAll 257 (caps_list f app state_id)
unfolding Fits wire be3 be4 get_avp_info base_get_avp_info find_row base_rows_1 base_rows_2
caps_list-FitsAll f app state_id h = (
  (omega arith, h.host_len),
  (
    (omega arith, h.realm_len),
    (
      (omega arith, h.ip_len),
      (
        (omega arith, tt),
        (
          (omega arith, h.product_len),
          (
            (omega arith, tt),
            (
              (omega arith, tt),
              (
                (omega arith, tt),
                (
                  (omega arith, tt),
                  (
                    (omega arith, (((omega arith, tt), ((omega arith, tt), tt)), omega arith)),
                    ((omega arith, tt), tt),
                  ),
                ),
              ),
            ),
          ),
        ),
      ),
    ),
  ),
)

caps_msg_list-FitsAll :
    (is_req : Bool) (result_code : ℕ) (f : Profile) (app state_id : ℕ)
    → Short f
    → FitsAll 257 (caps_msg_list is_req result_code f app state_id)
unfolding Fits get_avp_info base_get_avp_info find_row base_rows_1 base_rows_2
caps_msg_list-FitsAll true result_code f app state_id h = caps_list-FitsAll f app state_id h
caps_msg_list-FitsAll false result_code f app state_id h =
    ((omega arith, tt), caps_list-FitsAll f app state_id h)

unfoldable pub caps_len : Bool → ℕ → Profile → ℕ → ℕ → ℕ
unfolding wire
caps_len is_req result_code f app state_id =
    20 + length (wire_all 257 (caps_msg_list is_req result_code f app state_id))

-- What the answer leaves of a connection: the names of the peer.
abbrev pub met : Profile → Dcb → Dcb
met f d = record d { peer_host = f.host; peer_realm = f.realm }

process_cea-met :
    (len flag h2h e2e app_id result_code : ℕ) (f : Profile) (app state_id : ℕ) (d : Dcb)
    → process_cea
        (some (record {
          cmd_code = 257;
          cmd_flag = flag;
          len = len;
          app_id = app_id;
          h2h_id = h2h;
          e2e_id = e2e;
          avp_list = decoded_all 257 (caps_msg_list false result_code f app state_id);
        }))
        d
      ≡ some (status_ok, met f d)
unfolding process_cea decoded get_avp_info base_get_avp_info find_row base_rows_1 base_rows_2
process_cea-met len flag h2h e2e app_id result_code f app state_id d = refl

-- The configuration that was read, the parameters of a message, and what bounds its size.
module _ (c : Config) (f : Profile) (says : Says c f) (few : 3 ≤ f.max_members)
    (small : f.max_members ≤ 256) (short : Short f) (env : Env) (buf_laws : BufLaws env.ops)
    (d : ListOps) (laws : ListLaws d) (b : MBuf) (fresh : env.fresh ≡ some b) (ty : IntfType)
    (app : ℕ) (is_app : app_id_of ty ≡ some app) (app_lt : app < 0x1_0000_0000)
    (n state_id result_code : ℕ) (ids : CmdHdrInfo) (hh : ids.h2h_id < 0x1_0000_0000)
    (he : ids.e2e_id < 0x1_0000_0000) where
  -- A capabilities exchange request or answer that is built from a configuration is read by the other side
  -- as the command 257 of the base application with the flag of a request or none, the ids that the
  -- header got, and these AVPs in this order: the result code, if it is an answer, the host, the realm,
  -- the address, the vendor 0, the product, the state id, the vendors 3GPP and ETSI, the application
  -- of the interface, the same application of 3GPP as a group, and the low 32 bits of the revision. The
  -- configuration is one that `diaConfig_init` leaves, with strings that fit an AVP and groups of three
  -- to 256 members; the interface has an application, the ids have 32 bits, there is memory and
  -- fuel, and the message fits the allocation and the 24 bits of its length.
  pub common_msg-decoded :
      (is_req : Bool)
      → caps_len is_req result_code f app state_id ≤ b.size
      → caps_len is_req result_code f app state_id < 0x100_0000
      → caps_len is_req result_code f app state_id ≤ n
      → (out : MsgOut) × (m : MBuf) × (common_msg enough env d c state_id ty cer is_req result_code
            ids
          ≡ some (some out))
        × (out.msg ≡ some m)
        × (decode_msg env.ops n (received m)
            ≡ done (
                some (record {
                  cmd_code = 257;
                  cmd_flag = caps_flag is_req;
                  len = caps_len is_req result_code f app state_id;
                  app_id = 0;
                  h2h_id = out.hdr_info.h2h_id;
                  e2e_id = out.hdr_info.e2e_id;
                  avp_list = decoded_all 257 (caps_msg_list is_req result_code f app state_id);
                })))
  unfolding caps_len
  common_msg-decoded is_req room len fuel =
      let w =
        decode_msg-encode_msg env.ops buf_laws n env.source env.h2h_id 257 (caps_flag is_req) 0 ids
          (caps_msg_list is_req result_code f app state_id) b (flag-lt is_req) (omega arith)
          (omega arith) hh he (caps_msg_list-FitsAll is_req result_code f app state_id short) room
          len fuel in
      (
        w.0,
        w.1,
        capabilities_msg-list c f says few small d laws env b is_req ty app state_id result_code ids
              fresh is_app app_lt
            ∙ ap (λ r. r >>= λ x. some (some x)) (w.2),
        w.3,
        w.5 ∙ λ i. done (
            some (record {
              cmd_code = 257;
              cmd_flag = caps_flag is_req;
              len = caps_len is_req result_code f app state_id;
              app_id = 0;
              h2h_id = (sym (w.4) i).h2h_id;
              e2e_id = (sym (w.4) i).e2e_id;
              avp_list = decoded_all 257 (caps_msg_list is_req result_code f app state_id);
            })),
      )
    where
      flag-lt : (is_req : Bool) → caps_flag is_req < 256
      flag-lt true = omega arith
      flag-lt false = omega arith

  -- A capabilities exchange answer that one side builds from its configuration, whatever its result code
  -- says, is read by the other side, and a client connection that waits for it is open afterwards,
  -- with the host and the realm of that configuration as the names of the peer. The
  -- configuration is one that `diaConfig_init` leaves, with strings that fit an AVP and groups of three
  -- to 256 members; the interface has an application, the ids have 32 bits, there is memory and
  -- fuel, and the message fits the allocation and the 24 bits of its length.
  pub common_msg-opened :
      (os : Os) (timer_id : ℕ) (s : Sys os)
      → caps_len false result_code f app state_id ≤ b.size
      → caps_len false result_code f app state_id < 0x100_0000
      → caps_len false result_code f app state_id ≤ n
      → (out : MsgOut) × (m : MBuf) × (r : MsgDecoded) × (s' : Sys os) × (common_msg enough env d c
            state_id ty cer false result_code ids
          ≡ some (some out))
        × (out.msg ≡ some m)
        × (decode_msg env.ops n (received m) ≡ done (some r))
        × (client_wait_cea_on_msg os rcv_cea (some r) timer_id s ≡ some s')
        × (s'.dcb.conn_state ≡ opened)
        × (s'.dcb.peer_host ≡ f.host)
        × (s'.dcb.peer_realm ≡ f.realm)
  unfolding client_wait_cea_on_msg after_cea
  common_msg-opened os timer_id s room len fuel =
      let w = common_msg-decoded false room len fuel in
      (
        w.0,
        w.1,
        _,
        _,
        w.2,
        w.3,
        w.4,
        ap (λ r. r >>= λ x. some (after_cea os x (stop_if_set os twt s)))
            (process_cea-met _ _ _ _ _ _ f app state_id _),
        refl,
        ap (λ x. x.peer_host) (enter_state-dcb os opened _),
        ap (λ x. x.peer_realm) (enter_state-dcb os opened _),
      )
