-- ===== src/Config/Common.antt =====
-- The messages that `diaSendCommonMsg` (common/src/diaMgr.c) builds from the configuration, up to
-- `transport_send`.
use diameter.Common.{ℕ, Bool, true, Option, none, some, if◌then◌else◌, List, [], ◌>>=◌}
use diameter.Msg.{CmdHdrInfo}
use diameter.Wire.Message.{MsgOut}
use diameter.Cmd.Lists.{ListOps}
use diameter.Cmd.Param.{Env, RealmHost}
use diameter.Cmd.Capabilities.{Capabilities, build_cer, build_cea}
use diameter.Cmd.Watchdog.{build_dwr, build_dwa}
use diameter.Conn.Os.{CommonCmd, cer, dwr, dpr}
use diameter.Conn.Provision.{IntfType}
use diameter.Config.Table.{XmlData}
use diameter.Config.Init.{Config}
use diameter.Config.Access.{
  host_realm, host_ip_list, product_name_conf, dia_vendor_id, supported_vendor_id, auth_app_id,
  acct_app_id, vendor_specific_app_id, firmware_rev,
}

-- Which of the lists there is memory for.
pub record Memory : Type 0 where
  pub ips : Bool
  pub product : Bool
  pub vendors : Bool
  pub auth : Bool
  pub specific : Bool

abbrev pub enough : Memory
enough = record { ips = true; product = true; vendors = true; auth = true; specific = true }

-- The builders take a null list for an empty one.
abbrev listed {ℓ} : {A : Type ℓ} → Option (List A) → List A
listed none = []
listed (some l) = l

-- What the configuration gives the builders for an interface; `state_id` is `diaGetOrigStateId`.
unfoldable pub caps_of : Memory → List XmlData → ℕ → IntfType → Option Capabilities
caps_of m t state_id ty = vendor_specific_app_id t ty none m.specific >>= λ specific.
    firmware_rev t >>= λ rev. some (record {
      vendor_id = dia_vendor_id;
      orig_state_id = state_id;
      supported_vendor_ids = listed (supported_vendor_id none m.vendors);
      auth_app_ids = listed (auth_app_id ty none m.auth);
      acct_app_ids = listed (acct_app_id ty none);
      vendor_specific_app_ids = listed specific;
      firmware_rev = some rev;
    })

-- The case of DIA_CMD_CODE_CER.
unfoldable pub capabilities_msg :
    Memory → Env → ListOps → Config → ℕ → IntfType → Bool → ℕ → CmdHdrInfo → Option (Option MsgOut)
unfolding caps_of build_cer build_cea host_ip_list product_name_conf
capabilities_msg m env d c state_id ty is_req result_code ids = host_ip_list c none m.ips >>= λ ips.
    product_name_conf c.table m.product >>= λ product. caps_of m c.table state_id ty >>= λ caps.
    if is_req
    then build_cer env d caps ips product [] (some ids)
    else build_cea env d result_code caps ips product [] (some ids)

-- `diaBuildDwr` and `diaBuildDwa` without optional AVPs.
unfoldable pub watchdog_msg : Env → Bool → ℕ → CmdHdrInfo → Option (Option MsgOut)
unfolding build_dwr build_dwa
watchdog_msg env is_req result_code ids =
    if is_req
    then build_dwr env [] (some ids)
    else build_dwa env result_code none none [] (some ids)

-- What the builders read by `diaConfig_getHostRealm`.
abbrev named : Env → RealmHost → Env
named env r = record env { host = r.orig_host; realm = r.orig_realm }

-- `pBuf` of `diaSendCommonMsg`, with the ids of the connection; a DPR leaves it null.
unfoldable pub common_msg :
    Memory
    → Env
    → ListOps
    → Config
    → ℕ
    → IntfType
    → CommonCmd
    → Bool
    → ℕ
    → CmdHdrInfo
    → Option (Option MsgOut)
unfolding capabilities_msg watchdog_msg host_realm
common_msg m env d c state_id ty cer is_req result_code ids = host_realm c.table >>= λ r.
    capabilities_msg m (named env r) d c state_id ty is_req result_code ids
common_msg m env d c state_id ty dwr is_req result_code ids =
    host_realm c.table >>= λ r. watchdog_msg (named env r) is_req result_code ids
common_msg m env d c state_id ty dpr is_req result_code ids = some none
