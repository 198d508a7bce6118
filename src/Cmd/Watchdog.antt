-- ===== src/Cmd/Watchdog.antt =====
-- diaBase/src/diaBaseDwr.c: the device watchdog request and answer.
use diameter.Common.{ℕ, Option, none, some, List, [], ◌∷◌, ◌++◌, ◌>>=◌}
use diameter.Msg.{CmdHdrInfo}
use diameter.Wire.Encode.{EncAvp, enc_avp, num, pl, grouped, no_avp, add_avp}
use diameter.Wire.Message.{MsgAvp, plain, MsgOut}
use diameter.Cmd.Parts.{AvpLists, Step, ◌then◌, append_value, move_rest_opt, move_rest_extra}
use diameter.Cmd.Param.{Env, RealmHost, get_host_realm, lists_from, encode_lists}

-- `diaCxDwr_encode` up to `diaMsg_encode`.
unfoldable pub dwr_avps : RealmHost → Step
unfolding move_rest_opt move_rest_extra
dwr_avps p =
    append_value 264 (pl p.orig_host)
    then append_value 296 (pl p.orig_realm)
    then move_rest_opt
    then move_rest_extra

unfoldable pub dwr_encode : Env → RealmHost → AvpLists → CmdHdrInfo → Option MsgOut
unfolding dwr_avps encode_lists
dwr_encode env p l ids = dwr_avps p l >>= encode_lists env 280 0x80 0 ids

-- `pCmdHdrInfo` may be null: then there is no message.
unfoldable pub build_dwr : Env → List MsgAvp → Option CmdHdrInfo → Option (Option MsgOut)
unfolding dwr_encode
build_dwr env extra none = some none
build_dwr env extra (some ids) =
    dwr_encode env (get_host_realm env.host env.realm) (lists_from [] extra) ids >>= λ r.
    some (some r)

-- `diaCxDwa_encode` up to `diaMsg_encode`.
unfoldable pub dwa_avps : RealmHost → ℕ → Step
unfolding move_rest_opt move_rest_extra
dwa_avps p result_code =
    append_value 268 (num result_code)
    then append_value 264 (pl p.orig_host)
    then append_value 296 (pl p.orig_realm)
    then move_rest_opt
    then move_rest_extra

unfoldable pub dwa_encode : Env → RealmHost → ℕ → AvpLists → CmdHdrInfo → Option MsgOut
unfolding dwa_avps encode_lists
dwa_encode env p result_code l ids = dwa_avps p result_code l >>= encode_lists env 280 0 0 ids

-- The optional AVPs of `diaBuildDwa`: the message and the failed AVP may be null.
abbrev pub error_message : Option (List ℕ) → List MsgAvp
error_message none = []
error_message (some text) = plain (enc_avp 281 (pl text)) ∷ []

abbrev pub failed_avp : Option EncAvp → List MsgAvp
failed_avp none = []
failed_avp (some a) = plain (enc_avp 279 (grouped (add_avp a no_avp))) ∷ []

unfoldable pub build_dwa :
    Env
    → ℕ
    → Option (List ℕ)
    → Option EncAvp
    → List MsgAvp
    → Option CmdHdrInfo
    → Option (Option MsgOut)
unfolding dwa_encode
build_dwa env result_code error_msg failed extra none = some none
build_dwa env result_code error_msg failed extra (some ids) =
    dwa_encode env (get_host_realm env.host env.realm) result_code
      (lists_from (error_message error_msg ++ failed_avp failed) extra) ids
    >>= λ r. some (some r)
