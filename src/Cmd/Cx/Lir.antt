-- ===== src/Cmd/Cx/Lir.antt =====
-- `diaCxLir_encode` and `diaBuildLir` (diaCx/src/diaCxLir.c).
use diameter.Common.{ℕ, Option, none, some, ◌==◌, List, ◌>>=◌}
use diameter.Msg.{CmdHdrInfo}
use diameter.Wire.Encode.{enc_avp, num, pl}
use diameter.Wire.Message.{MsgAvp, plain, MsgOut}
use diameter.Cmd.Parts.{
  AvpLists, Step, ◌then◌, append_value, append_if, move_opt, move_extra, move_all_opt,
  move_rest_opt, move_extra_last,
}
use diameter.Cmd.Param.{RealmHost, get_host_realm, lists_from, encode_lists}
use diameter.Cmd.Encoders.{Feature}
use diameter.Cmd.Cx.{CxEnv, app_id_cx, cx_head, request_opts}

-- `diaCxLirParam_t` without the lists of optional AVPs.
pub record LirParam : Type 0 where
  pub realm_host : RealmHost
  pub pub_id : List ℕ
  pub user_auth_type : ℕ

abbrev pub reg_and_cap : ℕ
reg_and_cap = 2

-- `diaCxLir_encode` up to `diaMsg_encode`.
unfoldable pub lir_avps : CxEnv → LirParam → Step
unfolding cx_head append_if move_opt move_extra move_all_opt move_rest_opt move_extra_last
lir_avps cx p =
    cx_head cx p.realm_host
    then move_opt cx.lists 293
    then move_opt cx.lists 283
    then move_extra cx.lists 621
    then move_all_opt cx.lists 628
    then append_value 601 (pl p.pub_id)
    then move_rest_opt
    then append_if (p.user_auth_type == reg_and_cap) (plain (enc_avp 623 (num p.user_auth_type)))
    then move_extra_last cx.lists

unfoldable pub lir_encode : CxEnv → LirParam → AvpLists → CmdHdrInfo → Option MsgOut
unfolding lir_avps encode_lists
lir_encode cx p l ids = lir_avps cx p l >>= encode_lists cx.env 302 0xC0 app_id_cx ids

-- The identity and the ids may be null: then there is no message.
unfoldable pub build_lir :
    CxEnv
    → Option (List ℕ)
    → Option (List ℕ)
    → Option (List ℕ)
    → Option (List Feature)
    → ℕ
    → List MsgAvp
    → Option CmdHdrInfo
    → Option (Option MsgOut)
unfolding lir_encode request_opts
build_lir cx (some pub_id) dest_host dest_realm sf uat extra (some ids) =
    lir_encode cx
      (record {
        realm_host = get_host_realm cx.env.host cx.env.realm;
        pub_id = pub_id;
        user_auth_type = uat;
      })
      (lists_from (request_opts cx dest_host dest_realm sf) extra) ids
    >>= λ r. some (some r)
build_lir cx _ dest_host dest_realm sf uat extra _ = some none
