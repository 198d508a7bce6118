-- ===== src/Cmd/Cx/Sar.antt =====
-- `diaCxSar_encode` and `diaBuildSar` (diaCx/src/diaCxSar.c).
use diameter.Common.{ℕ, Bool, true, false, ◌&&◌, Option, none, some, List, ◌>>=◌}
use diameter.Msg.{CmdHdrInfo}
use diameter.Wire.Encode.{enc_avp, num, pl}
use diameter.Wire.Message.{MsgAvp, plain, MsgOut}
use diameter.Cmd.Parts.{
  AvpLists, Step, ◌then◌, append_value, append_if, move_opt, move_extra, move_all_opt,
  move_rest_opt, move_extra_last,
}
use diameter.Cmd.Param.{RealmHost, get_host_realm, lists_from, encode_lists}
use diameter.Cmd.Encoders.{Feature}
use diameter.Cmd.Cx.{CxEnv, app_id_cx, cx_head, request_opts}

-- `diaCxMultiRegInd_e`.
pub data MultiRegInd : Type 0 where
  no_exist not_multi_reg multi_reg : MultiRegInd

abbrev pub exists : MultiRegInd → Bool
exists no_exist = false
exists _ = true

abbrev pub ind_value : MultiRegInd → ℕ
ind_value no_exist = 0xFFFF_FFFF
ind_value not_multi_reg = 0
ind_value multi_reg = 1

-- `diaCxSarInfo_t`; of `pRestorationInfo` it matters only whether it is null.
pub record SarInfo : Type 0 where
  pub server_assignment_type : ℕ
  pub user_data_available : ℕ
  pub multi_reg_ind : MultiRegInd
  pub restoration_info : Bool

-- `diaCxSarParam_t` without the lists of optional AVPs; a user name that is not set has no bytes.
pub record SarParam : Type 0 where
  pub realm_host : RealmHost
  pub user_name : Option (List ℕ)
  pub pub_id : List ℕ
  pub server_name : List ℕ
  pub sar_info : SarInfo

unfoldable pub append_user_name : Option (List ℕ) → Step
append_user_name none l = some l
append_user_name (some name) l = append_value 1 (pl name) l

-- `diaCxSar_encode` up to `diaMsg_encode`. The restoration info is never appended.
unfoldable pub sar_avps : CxEnv → SarParam → Step
unfolding cx_head append_user_name append_if move_opt move_extra move_all_opt move_rest_opt
    move_extra_last
sar_avps cx p =
    cx_head cx p.realm_host
    then move_opt cx.lists 293
    then move_opt cx.lists 283
    then append_user_name p.user_name
    then move_extra cx.lists 621
    then move_all_opt cx.lists 628
    then append_value 601 (pl p.pub_id)
    then append_value 602 (pl p.server_name)
    then move_rest_opt
    then append_value 614 (num p.sar_info.server_assignment_type)
    then append_value 624 (num p.sar_info.user_data_available)
    then append_if (p.sar_info.restoration_info && exists p.sar_info.multi_reg_ind)
        (plain (enc_avp 648 (num (ind_value p.sar_info.multi_reg_ind))))
    then move_extra_last cx.lists

unfoldable pub sar_encode : CxEnv → SarParam → AvpLists → CmdHdrInfo → Option MsgOut
unfolding sar_avps encode_lists
sar_encode cx p l ids = sar_avps cx p l >>= encode_lists cx.env 301 0xC0 app_id_cx ids

-- The identity, the server name, the assignment and the ids may be null: then there is no message.
unfoldable pub build_sar :
    CxEnv
    → Option (List ℕ)
    → Option (List ℕ)
    → Option (List ℕ)
    → Option (List ℕ)
    → Option (List ℕ)
    → Option SarInfo
    → Option (List Feature)
    → List MsgAvp
    → Option CmdHdrInfo
    → Option (Option MsgOut)
unfolding sar_encode request_opts
build_sar cx name (some pub_id) (some server_name) dest_host dest_realm (some info) sf extra
      (some ids) =
    sar_encode cx
      (record {
        realm_host = get_host_realm cx.env.host cx.env.realm;
        user_name = name;
        pub_id = pub_id;
        server_name = server_name;
        sar_info = info;
      })
      (lists_from (request_opts cx dest_host dest_realm sf) extra) ids
    >>= λ r. some (some r)
build_sar cx name _ _ dest_host dest_realm _ sf extra _ = some none
