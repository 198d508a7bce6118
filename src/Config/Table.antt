-- ===== src/Config/Table.antt =====
-- The table `diaConfig_xmlData` of common/src/diaConfig.c, and `diaConfig_getConfig`. osXmlParserIntf.h,
-- which this repository does not hold, declares the rows and their types.
use Prim.Native.String.{String}
use diameter.Common.{ℕ, zero, suc, Bool, false, Option, none, some, List, [], ◌∷◌, ◌>>=◌}

-- `diaConfig_xmlDataName_e`.
pub data XmlName : Type 0 where
  hash_size is_server orig_host orig_realm product_name config_peer_ip config_local_ip : XmlName
  max_host_ip_num config_peer_port max_same_avp_num firmware_revision max_interface_num : XmlName
  config_listen_port conn_timer_watchdog conn_timer_wait_conn conn_timer_retry_conn : XmlName
  req_wait_resp_default_time config_max_avp_inside_grp_avp conn_timer_transmit_wait_time : XmlName
  cx_max_server_capability_item config_transport_tcp_buffer_size max_data_name_num : XmlName

-- The value of the enumerator.
abbrev pub index : XmlName → ℕ
index hash_size = 0
index is_server = 1
index orig_host = 2
index orig_realm = 3
index product_name = 4
index config_peer_ip = 5
index config_local_ip = 6
index max_host_ip_num = 7
index config_peer_port = 8
index max_same_avp_num = 9
index firmware_revision = 10
index max_interface_num = 11
index config_listen_port = 12
index conn_timer_watchdog = 13
index conn_timer_wait_conn = 14
index conn_timer_retry_conn = 15
index req_wait_resp_default_time = 16
index config_max_avp_inside_grp_avp = 17
index conn_timer_transmit_wait_time = 18
index cx_max_server_capability_item = 19
index config_transport_tcp_buffer_size = 20
index max_data_name_num = 21

-- The types that the rows name: `OS_XML_DATA_TYPE_XS_LONG` and the others.
pub data XmlType : Type 0 where
  xs_long xs_boolean xs_string xs_short : XmlType

-- The union of a row: which member was written, or none of them yet, so that all bytes are zero.
pub data XmlValue : Type 0 where
  zeroed : XmlValue
  is_true : Bool → XmlValue
  int : ℕ → XmlValue
  str : List ℕ → XmlValue

pub record XmlData : Type 0 where
  pub name : XmlName
  pub data_name : String
  pub data_type : XmlType
  pub value : XmlValue

abbrev row : XmlName → String → XmlType → XmlData
row n text type = record { name = n; data_name = text; data_type = type; value = zeroed }

-- The table before a file is read.
unfoldable pub xml_data : List XmlData
xml_data =
    row hash_size "DIA_HASH_SIZE" xs_long
    ∷ row is_server "DIA_IS_SERVER" xs_boolean
    ∷ row orig_host "DIA_ORIG_HOST" xs_string
    ∷ row orig_realm "DIA_ORIG_REALM" xs_string
    ∷ row product_name "DIA_PRODUCT_NAME" xs_string
    ∷ row config_peer_ip "DIA_CONFIG_PEER_IP" xs_string
    ∷ row config_local_ip "DIA_CONFIG_LOCAL_IP" xs_string
    ∷ row max_host_ip_num "DIA_MAX_HOST_IP_NUM" xs_short
    ∷ row config_peer_port "DIA_CONFIG_PEER_PORT" xs_short
    ∷ row max_same_avp_num "DIA_MAX_SAME_AVP_NUM" xs_short
    ∷ row firmware_revision "DIA_FIRMWARE_REVISION" xs_short
    ∷ row max_interface_num "DIA_MAX_INTERFACE_NUM" xs_short
    ∷ row config_listen_port "DIA_CONFIG_LISTEN_PORT" xs_short
    ∷ row conn_timer_watchdog "DIA_CONN_TIMER_WATCHDOG" xs_long
    ∷ row conn_timer_wait_conn "DIA_CONN_TIMER_WAIT_CONN" xs_long
    ∷ row conn_timer_retry_conn "DIA_CONN_TIMER_RETRY_CONN" xs_long
    ∷ row req_wait_resp_default_time "DIA_REQ_WAIT_RESP_DEFAULT_TIME" xs_long
    ∷ row config_max_avp_inside_grp_avp "DIA_CONFIG_MAX_AVP_INSIDE_GRP_AVP" xs_short
    ∷ row conn_timer_transmit_wait_time "DIA_CONN_TIMER_TRANSMIT_WAIT_TIME" xs_long
    ∷ row cx_max_server_capability_item "DIA_CX_MAX_SERVER_CAPABILITY_ITEM" xs_short
    ∷ row config_transport_tcp_buffer_size "DIA_CONFIG_TRANSPORT_TCP_BUFFER_SIZE" xs_short
    ∷ []

-- The member of the union that a pointer points to.
pub data Member : Type 0 where
  xml_str xml_is_true xml_int : Member

-- A pointer to a member of the row of the name; the null pointer is `none`.
abbrev to : Member → XmlName → Option (Member × ℕ)
to m n = some (m, index n)

-- `diaConfig_getConfig`.
unfoldable pub get_config : XmlName → Option (Member × ℕ)
get_config orig_host = to xml_str orig_host
get_config orig_realm = to xml_str orig_realm
get_config product_name = to xml_str product_name
get_config config_peer_ip = to xml_str config_peer_ip
get_config config_local_ip = to xml_str config_local_ip
get_config is_server = to xml_is_true is_server
get_config hash_size = to xml_int hash_size
get_config max_host_ip_num = to xml_int max_host_ip_num
get_config config_peer_port = to xml_int config_peer_port
get_config max_same_avp_num = to xml_int max_same_avp_num
get_config firmware_revision = to xml_int firmware_revision
get_config max_interface_num = to xml_int max_interface_num
get_config config_listen_port = to xml_int config_listen_port
get_config conn_timer_watchdog = to xml_int conn_timer_watchdog
get_config conn_timer_wait_conn = to xml_int conn_timer_wait_conn
get_config conn_timer_retry_conn = to xml_int conn_timer_retry_conn
get_config req_wait_resp_default_time = to xml_int req_wait_resp_default_time
get_config config_max_avp_inside_grp_avp = to xml_int config_max_avp_inside_grp_avp
get_config conn_timer_transmit_wait_time = to xml_int conn_timer_transmit_wait_time
get_config cx_max_server_capability_item = to xml_int cx_max_server_capability_item
get_config config_transport_tcp_buffer_size = to xml_int config_transport_tcp_buffer_size
get_config max_data_name_num = none

unfoldable pub entry : ℕ → List XmlData → Option XmlData
entry i [] = none
entry zero (r ∷ t) = some r
entry (suc i) (r ∷ t) = entry i t

-- The reads of a member; `none` is a read of a member that was not the one written.
abbrev pub read_str : XmlValue → Option (List ℕ)
read_str zeroed = some []
read_str (str s) = some s
read_str _ = none

abbrev pub read_bool : XmlValue → Option Bool
read_bool zeroed = some false
read_bool (is_true b) = some b
read_bool _ = none

abbrev pub read_int : XmlValue → Option ℕ
read_int zeroed = some 0
read_int (int n) = some n
read_int _ = none

unfoldable pub str_at : List XmlData → Option (Member × ℕ) → Option (List ℕ)
unfolding entry
str_at t (some (xml_str, i)) = entry i t >>= λ r. read_str r.value
str_at t _ = none

unfoldable pub bool_at : List XmlData → Option (Member × ℕ) → Option Bool
unfolding entry
bool_at t (some (xml_is_true, i)) = entry i t >>= λ r. read_bool r.value
bool_at t _ = none

unfoldable pub int_at : List XmlData → Option (Member × ℕ) → Option ℕ
unfolding entry
int_at t (some (xml_int, i)) = entry i t >>= λ r. read_int r.value
int_at t _ = none

-- `*(osPointerLen_t*)diaConfig_getConfig(n)`, `*(bool*)`, `*(uint64_t*)`.
unfoldable pub get_str : List XmlData → XmlName → Option (List ℕ)
unfolding str_at get_config
get_str t n = str_at t (get_config n)

unfoldable pub get_bool : List XmlData → XmlName → Option Bool
unfolding bool_at get_config
get_bool t n = bool_at t (get_config n)

unfoldable pub get_int : List XmlData → XmlName → Option ℕ
unfolding int_at get_config
get_int t n = int_at t (get_config n)
