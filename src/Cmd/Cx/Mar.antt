-- ===== src/Cmd/Cx/Mar.antt =====
-- `diaCxMar_encode`, `diaBuildMar` and `diaCxMar_encodeAuthData` (diaCx/src/diaCxMar.c).
use diameter.Common.{ℕ, ◌%◌, Bool, Option, none, some, ◌==◌, if◌then◌else◌, List, [], ◌∷◌, ◌>>=◌}
use diameter.Msg.{OsStatus, status_ok, invalid_value, CmdHdrInfo}
use diameter.Wire.Buf.{MBuf, BufOps}
use diameter.Wire.Encode.{EncAvps, enc_avp, num, pl, grouped, no_avp, add_avp, encode_avp}
use diameter.Wire.Message.{MsgAvp, by_func, MsgOut}
use diameter.Cmd.Parts.{
  AvpLists, Step, ◌then◌, append, append_value, move_opt, move_extra, move_all_opt, move_rest_opt,
  move_extra_last,
}
use diameter.Cmd.Param.{RealmHost, get_host_realm, lists_from, encode_lists}
use diameter.Cmd.Encoders.{Feature}
use diameter.Cmd.Cx.{CxEnv, app_id_cx, cx_head, request_opts}

-- `diaCxAuthScheme_e`.
pub data AuthScheme : Type 0 where
  unknown_scheme digest_aka sip_digest nass_bundled early_ims : AuthScheme

-- `diaCxMar_RespAuthData_u`: what a scheme answers with.
pub data RespAuth : Type 0 where
  auth_aka : (item_order : ℕ) (authenticate authorization ck ik : List ℕ) → RespAuth
  auth_digest : (realm qop ha1 : List ℕ) → RespAuth
  auth_giba : (is_ipv4 : Bool) (framed : List ℕ) → RespAuth

-- `diaCxMarSipAuthDataItem_t`: a request has the authorization, an answer what the scheme answers.
pub record AuthData : Type 0 where
  pub is_req : Bool
  pub scheme : AuthScheme
  pub auth_item : ℕ
  pub authorization : List ℕ
  pub resp : RespAuth

-- "Unknown", "Digest-AKAv1-MD5", "SIP Digest" and "Early IMS Security".
abbrev pub unknown_text : List ℕ
unknown_text = 85 ∷ 110 ∷ 107 ∷ 110 ∷ 111 ∷ 119 ∷ 110 ∷ []

abbrev pub aka_text : List ℕ
aka_text = 68 ∷ 105 ∷ 103 ∷ 101 ∷ 115 ∷ 116 ∷ 45 ∷ 65 ∷ 75 ∷ 65 ∷ 118 ∷ 49 ∷ 45 ∷ 77 ∷ 68 ∷ 53 ∷ []

abbrev pub digest_text : List ℕ
digest_text = 83 ∷ 73 ∷ 80 ∷ 32 ∷ 68 ∷ 105 ∷ 103 ∷ 101 ∷ 115 ∷ 116 ∷ []

abbrev pub early_text : List ℕ
early_text =
    69 ∷ 97 ∷ 114 ∷ 108 ∷ 121 ∷ 32 ∷ 73 ∷ 77 ∷ 83 ∷ 32 ∷ 83 ∷ 101 ∷ 99 ∷ 117 ∷ 114 ∷ 105 ∷ 116 ∷ 121
    ∷ []

abbrev pub text_avp : ℕ → List ℕ → EncAvps → EncAvps
text_avp code l rest = add_avp (enc_avp code (pl l)) rest

-- An empty authorization is left out.
abbrev pub authorization_avp : List ℕ → EncAvps
authorization_avp [] = no_avp
authorization_avp (x ∷ l) = text_avp 610 (x ∷ l) no_avp

-- The members of the group, where the scheme is supported.
unfoldable pub req_members : AuthScheme → List ℕ → Option EncAvps
req_members unknown_scheme l = some (text_avp 608 unknown_text no_avp)
req_members digest_aka l = some (text_avp 608 aka_text (authorization_avp l))
req_members sip_digest l = some (text_avp 608 digest_text no_avp)
req_members early_ims l = some (text_avp 608 early_text no_avp)
req_members nass_bundled l = none

-- `none` is a union that does not hold what the scheme reads.
unfoldable pub resp_members : AuthScheme → RespAuth → Option (Option EncAvps)
resp_members digest_aka (auth_aka order authenticate authorization ck ik) = some (
    some (
      text_avp 608 aka_text (
        add_avp (enc_avp 613 (num order)) (
          text_avp 609 authenticate
            (text_avp 610 authorization (text_avp 625 ck (text_avp 626 ik no_avp)))))))
resp_members sip_digest (auth_digest realm qop ha1) = some (
    some
      (text_avp 608 digest_text (text_avp 104 realm (text_avp 110 qop (text_avp 121 ha1 no_avp)))))
resp_members early_ims (auth_giba is_ipv4 framed) =
    some (some (text_avp 608 early_text (text_avp (if is_ipv4 then 8 else 97) framed no_avp)))
resp_members unknown_scheme r = some none
resp_members nass_bundled r = some none
resp_members _ _ = none

unfoldable pub auth_members : AuthData → Option (Option EncAvps)
unfolding req_members resp_members
auth_members a =
    if a.is_req then some (req_members a.scheme a.authorization) else resp_members a.scheme a.resp

-- A scheme that is not supported writes nothing, and that is no error.
unfoldable pub encode_auth_members : BufOps → MBuf → Option EncAvps → Option (OsStatus × MBuf)
unfolding encode_avp
encode_auth_members o b none = some (status_ok, b)
encode_auth_members o b (some l) = encode_avp o 303 (enc_avp 612 (grouped l)) b

unfoldable pub encode_auth_data : BufOps → AuthData → MBuf → Option (OsStatus × MBuf)
unfolding auth_members encode_auth_members
encode_auth_data o a b =
    if b.pos % 4 == 0 then (auth_members a >>= encode_auth_members o b) else some (invalid_value, b)

-- `diaCxMarParam_t` without the lists of optional AVPs.
pub record MarParam : Type 0 where
  pub realm_host : RealmHost
  pub user_name : List ℕ
  pub pub_id : List ℕ
  pub auth_data : AuthData
  pub auth_item : ℕ
  pub server_name : List ℕ

unfoldable pub auth_data_avp : CxEnv → AuthData → MsgAvp
unfolding encode_auth_data
auth_data_avp cx a = by_func 612 (encode_auth_data cx.env.ops a)

-- `diaCxMar_encode` up to `diaMsg_encode`.
unfoldable pub mar_avps : CxEnv → MarParam → Step
unfolding cx_head move_opt move_extra move_all_opt move_rest_opt move_extra_last auth_data_avp
mar_avps cx p =
    cx_head cx p.realm_host
    then move_opt cx.lists 293
    then append_value 283 (pl p.realm_host.dest_realm)
    then append_value 1 (pl p.user_name)
    then move_extra cx.lists 621
    then move_all_opt cx.lists 628
    then append_value 601 (pl p.pub_id)
    then append (auth_data_avp cx p.auth_data)
    then append_value 607 (num p.auth_item)
    then append_value 602 (pl p.server_name)
    then move_rest_opt
    then move_extra_last cx.lists

unfoldable pub mar_encode : CxEnv → MarParam → AvpLists → CmdHdrInfo → Option MsgOut
unfolding mar_avps encode_lists
mar_encode cx p l ids = mar_avps cx p l >>= encode_lists cx.env 303 0xC0 app_id_cx ids

-- One item, or what the application asks for where the scheme is AKA.
abbrev pub mar_auth_item : AuthScheme → ℕ → ℕ
mar_auth_item digest_aka n = n
mar_auth_item _ n = 1

-- The ids of a null pointer are written through.
abbrev pub with_ids : (CmdHdrInfo → Option MsgOut) → Option CmdHdrInfo → Option (Option MsgOut)
with_ids f none = none
with_ids f (some ids) = f ids >>= λ r. some (some r)

-- The names and the authentication data may be null: then there is no message.
unfoldable pub build_mar :
    CxEnv
    → Option (List ℕ)
    → Option (List ℕ)
    → Option AuthData
    → Option (List ℕ)
    → Option (List ℕ)
    → Option (List ℕ)
    → Option (List Feature)
    → List MsgAvp
    → Option CmdHdrInfo
    → Option (Option MsgOut)
unfolding mar_encode request_opts
build_mar cx (some name) (some pub_id) (some a) (some server_name) dest_host dest_realm sf extra
      ids =
    with_ids
      (mar_encode cx
        (record {
          realm_host = get_host_realm cx.env.host cx.env.realm;
          user_name = name;
          pub_id = pub_id;
          auth_data = a;
          auth_item = mar_auth_item a.scheme a.auth_item;
          server_name = server_name;
        })
        (lists_from (request_opts cx dest_host dest_realm sf) extra))
      ids
build_mar cx _ _ _ _ dest_host dest_realm sf extra ids = some none
