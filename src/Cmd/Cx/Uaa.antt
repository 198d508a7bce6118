-- ===== src/Cmd/Cx/Uaa.antt =====
-- `diaCxUaa_encode` and `diaBuildUaa` (diaCx/src/diaCxUar.c).
use diameter.Common.{
  ℕ, zero, suc, ◌+◌, ◌-◌, Bool, Option, none, some, if◌then◌else◌, List, [], ◌∷◌, ◌++◌, ◌>>=◌,
}
use diameter.Msg.{CmdHdrInfo}
use diameter.Wire.Encode.{EncAvp, EncAvps, enc_avp, num, pl, grouped, no_avp, add_avp}
use diameter.Wire.Message.{MsgAvp, plain, MsgOut}
use diameter.Cmd.Parts.{
  AvpLists, Step, ◌then◌, append, append_value, move_opt, move_extra, move_all_opt, move_rest_opt,
  move_extra_last,
}
use diameter.Cmd.Param.{RealmHost, get_host_realm, lists_from, encode_lists}
use diameter.Cmd.Encoders.{Feature}
use diameter.Cmd.Cx.{CxEnv, app_id_cx, app_id_func_avp, auth_state_avp, opt_text, opt_features}

-- `diaResultCode_t`: a result code, or an experimental one.
pub record ResultCode : Type 0 where
  pub is_result_code : Bool
  pub code : ℕ

abbrev pub result_avp : ResultCode → MsgAvp
result_avp r =
    if r.is_result_code
    then plain (enc_avp 268 (num r.code))
    else plain (enc_avp 297 (grouped (add_avp (enc_avp 298 (num r.code)) no_avp)))

-- `diaCxUaaParam_t` without the lists of optional AVPs, and the session id of the request.
pub record UaaParam : Type 0 where
  pub realm_host : RealmHost
  pub result_code : ResultCode
  pub sess_id : List ℕ

-- `diaCxUaa_encode` up to `diaMsg_encode`.
unfoldable pub uaa_avps : CxEnv → UaaParam → Step
unfolding app_id_func_avp move_opt move_extra move_all_opt move_rest_opt move_extra_last
uaa_avps cx p =
    append_value 263 (pl p.sess_id)
    then append (app_id_func_avp cx)
    then append (result_avp p.result_code)
    then append auth_state_avp
    then append_value 264 (pl p.realm_host.orig_host)
    then append_value 296 (pl p.realm_host.orig_realm)
    then move_extra cx.lists 621
    then move_all_opt cx.lists 628
    then move_opt cx.lists 602
    then move_opt cx.lists 603
    then move_rest_opt
    then move_extra_last cx.lists

-- The answer has the flags of a request.
unfoldable pub uaa_encode : CxEnv → UaaParam → AvpLists → CmdHdrInfo → Option MsgOut
unfolding uaa_avps encode_lists
uaa_encode cx p l ids = uaa_avps cx p l >>= encode_lists cx.env 300 0xC0 app_id_cx ids

-- `diaCxUarServerCap_t`: arrays of ten, and how much of each is in use.
pub record ServerCap : Type 0 where
  pub msc : List ℕ
  pub msc_num : ℕ
  pub osc : List ℕ
  pub osc_num : ℕ
  pub server_name : List (List ℕ)
  pub server_name_num : ℕ

abbrev pub max_server_cap : ℕ
max_server_cap = 10

-- The loop whose condition is `j < num, i < 10`, of which the comma takes the second part: it goes on
-- until ten AVPs are made, whatever the count says. `none` is a read behind the array.
unfoldable pub cap_loop {ℓ} : {A : Type ℓ} → (A → EncAvp) → ℕ → List A → Option (List EncAvp)
cap_loop make zero l = some []
cap_loop make (suc left) [] = none
cap_loop make (suc left) (x ∷ l) = cap_loop make left l >>= λ r. some (make x ∷ r)

abbrev pub made : List EncAvp → ℕ
made [] = 0
made (x ∷ l) = suc (made l)

abbrev pub cap_group : List EncAvp → EncAvps
cap_group [] = no_avp
cap_group (a ∷ l) = add_avp a (cap_group l)

-- The three loops share the index of the AVPs.
unfoldable pub server_cap_avp : ServerCap → Option MsgAvp
unfolding cap_loop
server_cap_avp c = cap_loop (λ n. enc_avp 604 (num n)) max_server_cap c.msc >>= λ m.
    cap_loop (λ n. enc_avp 605 (num n)) (max_server_cap - made m) c.osc >>= λ o.
    cap_loop (λ l. enc_avp 602 (pl l)) (max_server_cap - (made m + made o)) c.server_name >>= λ s.
    some (plain (enc_avp 603 (grouped (cap_group (m ++ (o ++ s))))))

unfoldable pub opt_server_cap : Option ServerCap → Option (List MsgAvp)
unfolding server_cap_avp
opt_server_cap none = some []
opt_server_cap (some c) = server_cap_avp c >>= λ a. some (a ∷ [])

-- The ids with the session, and the result may be null: then there is no message.
unfoldable pub build_uaa :
    CxEnv
    → Option (CmdHdrInfo × List ℕ)
    → Option ResultCode
    → Option (List Feature)
    → Option (List ℕ)
    → Option ServerCap
    → List MsgAvp
    → Option (Option MsgOut)
unfolding uaa_encode opt_server_cap opt_features
build_uaa cx (some (ids, sess_id)) (some result) sf server_name cap extra =
    opt_server_cap cap >>= λ caps.
    uaa_encode cx
      (record {
        realm_host = get_host_realm cx.env.host cx.env.realm;
        result_code = result;
        sess_id = sess_id;
      })
      (lists_from (opt_features cx sf ++ (opt_text 602 server_name ++ caps)) extra) ids
    >>= λ r. some (some r)
build_uaa cx _ _ sf server_name cap extra = some none
