-- ===== src/Cmd/Cx/Uar.antt =====
-- `diaCxUar_encode` and `diaBuildUar` (diaCx/src/diaCxUar.c).
use diameter.Common.{ℕ, Option, none, some, ◌==◌, if◌then◌else◌, List, [], ◌∷◌, ◌++◌, ◌>>=◌}
use diameter.Msg.{CmdHdrInfo}
use diameter.Wire.Encode.{enc_avp, num, pl}
use diameter.Wire.Message.{MsgAvp, plain, MsgOut}
use diameter.Cmd.Parts.{
  AvpLists, Step, ◌then◌, append_value, move_opt, move_extra, move_all_opt, move_rest_opt,
  move_extra_last,
}
use diameter.Cmd.Param.{RealmHost, lists_from, encode_lists}
use diameter.Cmd.Encoders.{Feature}
use diameter.Cmd.Cx.{CxEnv, app_id_cx, vendor_3gpp, cx_head, opt_text, features_avp}

-- `diaCxUarParam_t` without the lists of optional AVPs.
pub record UarParam : Type 0 where
  pub realm_host : RealmHost
  pub user_name : List ℕ
  pub pub_id : List ℕ
  pub visited_network : List ℕ

-- `diaCxUar_encode` up to `diaMsg_encode`.
unfoldable pub uar_avps : CxEnv → UarParam → Step
unfolding cx_head move_opt move_extra move_all_opt move_rest_opt move_extra_last
uar_avps cx p =
    cx_head cx p.realm_host
    then move_opt cx.lists 293
    then append_value 283 (pl p.realm_host.dest_realm)
    then append_value 1 (pl p.user_name)
    then move_extra cx.lists 621
    then move_all_opt cx.lists 628
    then append_value 601 (pl p.pub_id)
    then append_value 600 (pl p.visited_network)
    then move_opt cx.lists 623
    then move_extra cx.lists 637
    then move_opt cx.lists 1263
    then move_rest_opt
    then move_extra_last cx.lists

unfoldable pub uar_encode : CxEnv → UarParam → AvpLists → CmdHdrInfo → Option MsgOut
unfolding uar_avps encode_lists
uar_encode cx p l ids = uar_avps cx p l >>= encode_lists cx.env 300 0xC0 app_id_cx ids

-- `DiaCxUarAuthType_e`.
pub data AuthType : Type 0 where
  registration de_registration registration_and_capabilities no_auth_type : AuthType

abbrev pub auth_type_avp : AuthType → List MsgAvp
auth_type_avp registration = plain (enc_avp 623 (num 0)) ∷ []
auth_type_avp de_registration = plain (enc_avp 623 (num 1)) ∷ []
auth_type_avp registration_and_capabilities = plain (enc_avp 623 (num 2)) ∷ []
auth_type_avp no_auth_type = []

abbrev pub one_feature : ℕ → List Feature
one_feature n = record { vendor_id = vendor_3gpp; feature_list_id = 1; feature_list = n } ∷ []

-- A feature list of zero is left out.
unfoldable pub feature_list_avp : CxEnv → ℕ → List MsgAvp
unfolding features_avp
feature_list_avp cx n = if n == 0 then [] else features_avp cx (one_feature n) ∷ []

-- `optAvpList` of `diaBuildUar`.
unfoldable pub uar_opts : CxEnv → Option (List ℕ) → ℕ → AuthType → List MsgAvp
unfolding features_avp
uar_opts cx dest_host feature_list t =
    opt_text 293 dest_host ++ (feature_list_avp cx feature_list ++ auth_type_avp t)

-- The names, the visited network, the destination realm and the ids may be null: then there is no
-- message.
unfoldable pub build_uar :
    CxEnv
    → Option (List ℕ)
    → Option (List ℕ)
    → Option (List ℕ)
    → AuthType
    → Option (List ℕ)
    → Option (List ℕ)
    → ℕ
    → List MsgAvp
    → Option CmdHdrInfo
    → Option (Option MsgOut)
unfolding uar_encode uar_opts
build_uar cx (some name) (some pub_id) (some network) t dest_host (some dest_realm) fl extra
      (some ids) =
    uar_encode cx
      (record {
        realm_host = record {
          orig_host = cx.env.host;
          orig_realm = cx.env.realm;
          dest_host = [];
          dest_realm = dest_realm;
        };
        user_name = name;
        pub_id = pub_id;
        visited_network = network;
      })
      (lists_from (uar_opts cx dest_host fl t) extra) ids
    >>= λ r. some (some r)
build_uar cx _ _ _ t dest_host _ fl extra _ = some none
