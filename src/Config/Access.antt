-- ===== src/Config/Access.antt =====
-- The functions of common/src/diaConfig.c that read the configuration. `none` is a read of a null pointer
-- or of a member that was not the one written; the pointers to the results are not null.
use diameter.Common.{
  ℕ, Bool, true, false, Option, none, some, List, [], ◌∷◌, ◌++◌, if◌then◌else◌, ◌>>=◌,
}
use diameter.Wire.Words.{u32}
use diameter.Wire.Encode.{EncAvp, num, enc_avp}
use diameter.Build.Group.{grp_create, grp_add_avp, grp_add_all}
use diameter.Cmd.Param.{RealmHost, get_host_realm}
use diameter.Cmd.Capabilities.{ListPlus}
use diameter.Conn.Provision.{IntfType, cx, gx, rx, sh, invalid}
use diameter.Config.Table.{
  XmlData, orig_host, orig_realm, product_name, config_peer_ip, config_local_ip, config_peer_port,
  config_listen_port, is_server, firmware_revision, config_max_avp_inside_grp_avp, get_str,
  get_bool, get_int,
}
use diameter.Config.Init.{Config}

-- `diaConfig_getHostRealm`, `diaConfig_getHostNWId`.
unfoldable pub host_realm : List XmlData → Option RealmHost
host_realm t = get_str t orig_realm >>= λ realm.
    get_str t orig_host >>= λ host. some (get_host_realm host realm)

unfoldable pub host_nw_id : List XmlData → Option (List ℕ)
host_nw_id t = get_str t orig_realm

-- `diaConfig_getHost`: the port becomes an `int`, given as its 32 bits.
unfoldable pub host : List XmlData → Option (List ℕ × ℕ)
host t =
    get_str t config_local_ip >>= λ ip. get_int t config_listen_port >>= λ port. some (ip, u32 port)

-- An `osIpPort_t`; the width of its port is that of `port_of` (osSockAddr.h, which this repository does not
-- hold).
pub record IpPort : Type 0 where
  pub ip : List ℕ
  pub port : ℕ

-- `diaConfig_getHost1` up to the conversion to a `sockaddr_in`, and `diaConfig_getPeer`.
unfoldable pub host_1 : (ℕ → ℕ) → List XmlData → Option IpPort
host_1 port_of t = get_str t config_local_ip >>= λ ip.
    get_int t config_listen_port >>= λ port. some (record { ip = ip; port = port_of port })

unfoldable pub peer : (ℕ → ℕ) → List XmlData → Option IpPort
peer port_of t = get_str t config_peer_ip >>= λ ip.
    get_int t config_peer_port >>= λ port. some (record { ip = ip; port = port_of port })

unfoldable pub is_server_conf : List XmlData → Option Bool
is_server_conf t = get_bool t is_server

-- What the given list has behind the first address; a new one has nothing.
abbrev more_of : Option ListPlus → List (List ℕ)
more_of none = []
more_of (some l) = l.more

abbrev given_or : Option ListPlus → Bool → Bool
given_or none memory = memory
given_or (some l) memory = true

-- `diaConfig_getHostIpList` of a list or of null, where there is memory or not; the inner `none` is the null
-- pointer. `none` outside is a list whose first address is null.
unfoldable pub host_ip_list : Config → Option ListPlus → Bool → Option (Option ListPlus)
host_ip_list c given memory =
    if given_or given memory
    then (c.host_ip >>= λ ip. some (some (record { count = 1; first = ip; more = more_of given })))
    else some none

-- `diaConfig_getProductName`, whose null pointer is the inner `none`.
unfoldable pub product_name_conf : List XmlData → Bool → Option (Option (List ℕ))
product_name_conf t memory =
    if memory then (get_str t product_name >>= λ s. some (some s)) else some none

-- `diaConfig_getDiaVendorId`: DIA_VENDOR_ID_RESERVED.
abbrev pub dia_vendor_id : ℕ
dia_vendor_id = 0

abbrev pub vendor_etsi : ℕ
vendor_etsi = 13019

abbrev pub vendor_3gpp : ℕ
vendor_3gpp = 10415

-- The list that is given, or a new one, if there is memory for it.
abbrev given_list {ℓ} : {A : Type ℓ} → Option (List A) → Bool → Option (List A)
given_list none true = some []
given_list none false = none
given_list (some l) memory = some l

-- `diaConfig_getSupportedVendorId`.
unfoldable pub supported_vendor_id : Option (List ℕ) → Bool → Option (List ℕ)
supported_vendor_id given memory =
    given_list given memory >>= λ l. some (l ++ (vendor_3gpp ∷ vendor_etsi ∷ []))

-- The application of an interface: DIA_APP_ID_3GPP_CX and the others.
abbrev pub app_id_of : IntfType → Option ℕ
app_id_of cx = some 16777216
app_id_of gx = some 16777238
app_id_of rx = some 16777236
app_id_of sh = some 16777217
app_id_of invalid = none

-- `diaConfig_getAuthAppId`.
unfoldable pub auth_app_id : IntfType → Option (List ℕ) → Bool → Option (List ℕ)
auth_app_id ty given memory =
    given_list given memory >>= λ l. app_id_of ty >>= λ app. some (l ++ (app ∷ []))

-- `diaConfig_getAcctAppId`.
unfoldable pub acct_app_id : IntfType → Option (List ℕ) → Option (List ℕ)
acct_app_id ty given = none

-- `diaConfig_getVendorSpecificAppId`: the null pointer is the inner `none`. The status of `diaAvpGrp_addAvp`
-- is not looked at.
abbrev pub specific_members : ℕ → List EncAvp
specific_members app = enc_avp 266 (num vendor_3gpp) ∷ enc_avp 258 (num app) ∷ []

unfoldable pub specific_app : List XmlData → List EncAvp → Option ℕ → Option (Option (List EncAvp))
unfolding grp_create grp_add_all grp_add_avp
specific_app t l none = some none
specific_app t l (some app) = get_int t config_max_avp_inside_grp_avp >>= λ max.
    grp_add_all max (specific_members app) (grp_create 260) >>= λ g. some (some (l ++ (g ∷ [])))

unfoldable pub vendor_specific_app_id :
    List XmlData → IntfType → Option (List EncAvp) → Bool → Option (Option (List EncAvp))
unfolding specific_app
vendor_specific_app_id t ty given memory = elim (given_list given memory) [
  | none ↦ some none
  | some l ↦ specific_app t l (app_id_of ty)
]

-- `diaConfig_getFirmwareRev`, which returns true: the 64 bits become 32.
unfoldable pub firmware_rev : List XmlData → Option ℕ
firmware_rev t = get_int t firmware_revision >>= λ rev. some (u32 rev)
