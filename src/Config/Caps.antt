-- ===== src/Config/Caps.antt =====
-- The AVPs of the capabilities exchange that common/src/diaMgr.c makes of the configuration.
use diameter.Common.{
  ℕ, ◌-◌, ◌≤◌, ◌<◌, ◌≡◌, refl, ap, ◌∙◌, arith, Bool, true, false, Option, some, [], ◌∷◌, take-all,
  ◌>>=◌,
}
use diameter.Msg.{CmdHdrInfo}
use diameter.Wire.Words.{u32}
use diameter.Wire.Buf.{MBuf}
use diameter.Wire.Encode.{EncAvp, EncAvps, enc_avp, num, pl, grouped, no_avp, add_avp}
use diameter.Wire.Message.{plain, MsgOut, encode_msg}
use diameter.Wire.MessageWritten.{list_of}
use diameter.Build.Group.{members_of, grp_create, grp_add_all, grp_add_all-take}
use diameter.Cmd.Lists.{ListOps, ListLaws}
use diameter.Cmd.Codes.{HaveCode}
use diameter.Cmd.Param.{Env, get_host_realm, encode_lists, lists_from}
use diameter.Cmd.Capabilities.{
  Capabilities, CerParam, cer_opts, cer_avps, cer_encode, cea_encode, build_cer, build_cea,
  cea_opts, cea_avps,
}
use diameter.Cmd.CapsOrder.{cer_avps-order, cer_avps-after}
use diameter.Cmd.CapsAnswer.{AreWords, cea_opts-cer}
use diameter.Conn.Os.{cer}
use diameter.Conn.Provision.{IntfType}
use diameter.Config.Init.{Config}
use diameter.Config.Access.{
  app_id_of, host_realm, host_ip_list, product_name_conf, supported_vendor_id, auth_app_id,
  acct_app_id, specific_members, specific_app, vendor_specific_app_id, vendor_3gpp, vendor_etsi,
  firmware_rev,
}
use diameter.Config.Profile.{Profile, Says}
use diameter.Config.Common.{enough, caps_of, capabilities_msg, common_msg}

abbrev pub specific_avp : ℕ → EncAvp
specific_avp app =
    enc_avp 260
      (grouped (add_avp (enc_avp 266 (num vendor_3gpp)) (add_avp (enc_avp 258 (num app)) no_avp)))

abbrev pub conf_caps : Profile → ℕ → ℕ → Capabilities
conf_caps f app state_id = record {
  vendor_id = 0;
  orig_state_id = state_id;
  supported_vendor_ids = vendor_3gpp ∷ vendor_etsi ∷ [];
  auth_app_ids = app ∷ [];
  acct_app_ids = [];
  vendor_specific_app_ids = specific_avp app ∷ [];
  firmware_rev = some (u32 f.revision);
}

-- The AVPs of a request; those of an answer stand behind its result code.
abbrev pub caps_list : Profile → ℕ → ℕ → EncAvps
caps_list f app state_id = add_avp (enc_avp 264 (pl f.host)) (
    add_avp (enc_avp 296 (pl f.realm)) (
      add_avp (enc_avp 257 (pl f.ip)) (
        add_avp (enc_avp 266 (num 0)) (
          add_avp (enc_avp 269 (pl f.product)) (
            add_avp (enc_avp 278 (num state_id)) (
              add_avp (enc_avp 265 (num vendor_3gpp)) (
                add_avp (enc_avp 265 (num vendor_etsi)) (
                  add_avp (enc_avp 258 (num app)) (
                    add_avp (specific_avp app)
                      (add_avp (enc_avp 267 (num (u32 f.revision))) no_avp))))))))))

abbrev pub caps_msg_list : Bool → ℕ → Profile → ℕ → ℕ → EncAvps
caps_msg_list true result_code f app state_id = caps_list f app state_id
caps_msg_list false result_code f app state_id =
    add_avp (enc_avp 268 (num result_code)) (caps_list f app state_id)

abbrev pub caps_flag : Bool → ℕ
caps_flag true = 0x80
caps_flag false = 0

module _ (c : Config) (f : Profile) (says : Says c f) (few : 3 ≤ f.max_members)
    (small : f.max_members ≤ 256) where
  specific_app-group :
      (app : ℕ) → specific_app c.table [] (some app) ≡ some (some (specific_avp app ∷ []))
  unfolding specific_app
  specific_app-group app =
      ap
        (λ r. r >>= λ max.
          grp_add_all max (specific_members app) (grp_create 260) >>= λ g. some (some (g ∷ [])))
        says.members_read
      ∙ ap (λ r. r >>= λ g. some (some (g ∷ [])))
          (grp_add_all-take f.max_members 260 (specific_members app) (omega arith) small
            ∙ ap (λ l. some (enc_avp 260 (grouped (members_of l))))
                (take-all (f.max_members - 1) (specific_members app) (omega arith)))

  caps_of-conf :
      (ty : IntfType) (app state_id : ℕ)
      → app_id_of ty ≡ some app
      → caps_of enough c.table state_id ty ≡ some (conf_caps f app state_id)
  unfolding caps_of vendor_specific_app_id supported_vendor_id auth_app_id acct_app_id firmware_rev
  caps_of-conf ty app state_id e = simp (e, specific_app-group app, says.revision_read)

  module _ (d : ListOps) (laws : ListLaws d) (env : Env) (app state_id result_code : ℕ)
      (ids : CmdHdrInfo) where
    abbrev caps : Capabilities
    caps = conf_caps f app state_id

    abbrev param : CerParam
    param = record {
      realm_host = get_host_realm f.host f.realm;
      host_ip_list = record { count = 1; first = f.ip; more = [] };
      vendor_id = 0;
      product_name = f.product;
    }

    abbrev encoded : Bool → Option MsgOut
    encoded is_req =
        encode_msg env.ops env.source env.h2h_id env.fresh 257 (caps_flag is_req) 0
          (list_of (caps_msg_list is_req result_code f app state_id)) ids

    cer_encode-list : cer_encode env d param (lists_from (cer_opts caps) []) ids ≡ encoded true
    unfolding cer_encode encode_lists HaveCode
    cer_encode-list =
        ap (λ r. r >>= encode_lists env 257 0x80 0 ids)
          (cer_avps-order d laws param caps [] (refl, tt))

    cea_encode-list :
        app < 0x1_0000_0000
        → (cea_opts caps >>= λ opts. cea_encode env d result_code param (lists_from opts []) ids)
          ≡ encoded false
    unfolding cea_encode cea_avps cer_avps encode_lists HaveCode AreWords
    cea_encode-list small_app =
        ap (λ r. r >>= λ opts. cea_encode env d result_code param (lists_from opts []) ids)
          (cea_opts-cer caps (omega arith, (omega arith, tt)) (small_app, tt) tt (refl, tt)
            (omega arith))
        ∙ ap (λ r. r >>= encode_lists env 257 0 0 ids)
            (cer_avps-after d laws param caps (plain (enc_avp 268 (num result_code)) ∷ []) []
              (refl, tt))

  -- A message of the configuration is the encoding of its AVPs.
  pub capabilities_msg-list :
      (d : ListOps) (laws : ListLaws d) (env : Env) (b : MBuf) (is_req : Bool) (ty : IntfType)
      (app state_id result_code : ℕ) (ids : CmdHdrInfo)
      → env.fresh ≡ some b
      → app_id_of ty ≡ some app
      → app < 0x1_0000_0000
      → common_msg enough env d c state_id ty cer is_req result_code ids ≡ (
          encode_msg env.ops env.source env.h2h_id
            (some b)
            257
            (caps_flag is_req)
            0
            (list_of (caps_msg_list is_req result_code f app state_id))
            ids
          >>= λ r. some (some r))
  unfolding common_msg capabilities_msg host_ip_list product_name_conf host_realm build_cer
      build_cea
  capabilities_msg-list d laws env b true ty app state_id result_code ids fresh e small_app = simp (
    says.host_read,
    says.realm_read,
    says.product_read,
    says.ip_kept,
    caps_of-conf ty app state_id e,
    cer_encode-list d laws,
    fresh,
  )
  capabilities_msg-list d laws env b false ty app state_id result_code ids fresh e small_app =
      simp
        (
          says.host_read,
          says.realm_read,
          says.product_read,
          says.ip_kept,
          caps_of-conf ty app state_id e,
        )
        (ap (λ r. r >>= λ x. some (some x))
          (cea_encode-list d laws (record env { host = f.host; realm = f.realm }) app state_id
              result_code ids small_app
            ∙ ap
                (λ m.
                  encode_msg env.ops env.source env.h2h_id m 257 0 0
                    (list_of (caps_msg_list false result_code f app state_id)) ids)
                fresh))
