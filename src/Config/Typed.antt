-- ===== src/Config/Typed.antt =====
-- Which member of its union a row of `diaConfig_xmlData` has (common/src/diaConfig.c). The parser, of
-- osXmlParserIntf.h, is a parameter.
use diameter.Common.{
  ℕ, zero, suc, ◌^◌, ◌<◌, ◌≡◌, refl, ap, subst, ◌∙◌, arith, Bool, Option, none, some, List, [], ◌∷◌,
  ◌>>=◌,
}
use diameter.Config.Table.{
  XmlName, hash_size, is_server, orig_host, orig_realm, product_name, config_peer_ip,
  config_local_ip, max_host_ip_num, config_peer_port, max_same_avp_num, firmware_revision,
  max_interface_num, config_listen_port, conn_timer_watchdog, conn_timer_wait_conn,
  conn_timer_retry_conn, req_wait_resp_default_time, config_max_avp_inside_grp_avp,
  conn_timer_transmit_wait_time, cx_max_server_capability_item, config_transport_tcp_buffer_size,
  max_data_name_num, index, XmlType, xs_long, xs_boolean, xs_string, xs_short, XmlValue, zeroed,
  is_true, int, str, XmlData, xml_data, Member, xml_str, xml_is_true, xml_int, get_config, entry,
  str_at, int_at, get_str, get_int, read_str, read_bool, read_int,
}

-- The member that a value of the type is in, if the file gave one.
unfoldable pub HasType : XmlType → XmlValue → Type 0
HasType ty zeroed = Unit {0}
HasType xs_boolean (is_true b) = Unit {0}
HasType xs_string (str s) = Unit {0}
HasType xs_long (int n) = n < 2 ^ 64
HasType xs_short (int n) = n < 2 ^ 64
HasType _ _ = ⊥

-- The second table is the first with values of the types that its rows name.
unfoldable pub Filled : List XmlData → List XmlData → Type 0
Filled [] [] = Unit {0}
Filled (r ∷ t) (r' ∷ t') =
    (r'.name ≡ r.name) × (r'.data_type ≡ r.data_type) × HasType r.data_type r'.value × Filled t t'
Filled _ _ = ⊥

-- `osXml_getLeafValue` on the table; `none` is a status that is not `OS_STATUS_OK`.
pub record Parser : Type 0 where
  pub get_leaf_value : List XmlData → Option (List XmlData)

-- What the code relies on: a value is stored in the member of the type of its row.
pub record ParserLaws (p : Parser) : Type 0 where
  pub fills : (t t' : List XmlData) → p.get_leaf_value t ≡ some t' → Filled t t'

pub ReadsAs : Member → XmlValue → Type 0
ReadsAs xml_str v = (s : List ℕ) × (read_str v ≡ some s)
ReadsAs xml_is_true v = (b : Bool) × (read_bool v ≡ some b)
ReadsAs xml_int v = (n : ℕ) × (read_int v ≡ some n) × (n < 2 ^ 64)

abbrev member_of : XmlType → Member
member_of xs_string = xml_str
member_of xs_boolean = xml_is_true
member_of _ = xml_int

HasType-ReadsAs : (ty : XmlType) (v : XmlValue) → HasType ty v → ReadsAs (member_of ty) v
unfolding HasType ReadsAs
HasType-ReadsAs xs_string zeroed h = ([], refl)
HasType-ReadsAs xs_string (str s) h = (s, refl)
HasType-ReadsAs xs_boolean zeroed h = (_, refl)
HasType-ReadsAs xs_boolean (is_true b) h = (b, refl)
HasType-ReadsAs xs_long zeroed h = (0, refl, omega arith)
HasType-ReadsAs xs_long (int n) h = (n, refl, h)
HasType-ReadsAs xs_short zeroed h = (0, refl, omega arith)
HasType-ReadsAs xs_short (int n) h = (n, refl, h)
HasType-ReadsAs _ _ h = absurd h

Filled-entry :
    (i : ℕ) (t t' : List XmlData) (r : XmlData)
    → Filled t t'
    → entry i t ≡ some r
    → (r' : XmlData) × (entry i t' ≡ some r') × (r'.name ≡ r.name) × HasType r.data_type r'.value
unfolding Filled entry
Filled-entry i [] [] r f e = absurd (cc)
Filled-entry i [] (_ ∷ _) r f e = absurd f
Filled-entry i (_ ∷ _) [] r f e = absurd f
Filled-entry zero (x ∷ t) (x' ∷ t') r f e =
    let same : x ≡ r = cc in
    (x', refl, f.0 ∙ ap (λ a. a.name) same, subst (λ a. HasType a.data_type x'.value) same (f.2))
Filled-entry (suc i) (x ∷ t) (x' ∷ t') r f e = Filled-entry i t t' r (f.3) e

-- What a pointer that `diaConfig_getConfig` gives is good for: it points to a member of the row of the
-- name that reads as a value; only the name that ends the enumeration has none.
pub PointsTo : List XmlData → XmlName → Option (Member × ℕ) → Type 0
unfolding ReadsAs entry
PointsTo t n none = n ≡ max_data_name_num
PointsTo t n (some (m, i)) = (r : XmlData) × (entry i t ≡ some r) × (r.name ≡ n) × ReadsAs m r.value

module _ (p : Parser) (laws : ParserLaws p) (t : List XmlData)
    (e : p.get_leaf_value xml_data ≡ some t) where
  points :
      (n : XmlName) (r : XmlData)
      → entry (index n) xml_data ≡ some r
      → r.name ≡ n
      → PointsTo t n (some (member_of r.data_type, index n))
  unfolding PointsTo
  points n r h k =
      let (r', at, same, has) = Filled-entry (index n) xml_data t r (laws.fills xml_data t e) h in
      (r', at, same ∙ k, HasType-ReadsAs r.data_type r'.value has)

  -- Once the file is read, `diaConfig_getConfig` gives for each name a pointer into the row of that name, to the member of the
  -- union that the parser has written or to one that is zero, and no number is wider than 64 bits;
  -- for the name that ends the enumeration, and for no other, it gives the null pointer.
  pub get_config-PointsTo : (n : XmlName) → PointsTo t n (get_config n)
  unfolding get_config xml_data entry PointsTo
  get_config-PointsTo hash_size = points hash_size _ refl refl
  get_config-PointsTo is_server = points is_server _ refl refl
  get_config-PointsTo orig_host = points orig_host _ refl refl
  get_config-PointsTo orig_realm = points orig_realm _ refl refl
  get_config-PointsTo product_name = points product_name _ refl refl
  get_config-PointsTo config_peer_ip = points config_peer_ip _ refl refl
  get_config-PointsTo config_local_ip = points config_local_ip _ refl refl
  get_config-PointsTo max_host_ip_num = points max_host_ip_num _ refl refl
  get_config-PointsTo config_peer_port = points config_peer_port _ refl refl
  get_config-PointsTo max_same_avp_num = points max_same_avp_num _ refl refl
  get_config-PointsTo firmware_revision = points firmware_revision _ refl refl
  get_config-PointsTo max_interface_num = points max_interface_num _ refl refl
  get_config-PointsTo config_listen_port = points config_listen_port _ refl refl
  get_config-PointsTo conn_timer_watchdog = points conn_timer_watchdog _ refl refl
  get_config-PointsTo conn_timer_wait_conn = points conn_timer_wait_conn _ refl refl
  get_config-PointsTo conn_timer_retry_conn = points conn_timer_retry_conn _ refl refl
  get_config-PointsTo req_wait_resp_default_time = points req_wait_resp_default_time _ refl refl
  get_config-PointsTo config_max_avp_inside_grp_avp =
      points config_max_avp_inside_grp_avp _ refl refl
  get_config-PointsTo conn_timer_transmit_wait_time =
      points conn_timer_transmit_wait_time _ refl refl
  get_config-PointsTo cx_max_server_capability_item =
      points cx_max_server_capability_item _ refl refl
  get_config-PointsTo config_transport_tcp_buffer_size =
      points config_transport_tcp_buffer_size _ refl refl
  get_config-PointsTo max_data_name_num = refl

  -- A text or a number that the configuration has is read.
  pub get_str-some :
      (n : XmlName) → get_config n ≡ some (xml_str, index n) → (s : List ℕ) × (get_str t n ≡ some s)
  unfolding get_str str_at PointsTo ReadsAs
  get_str-some n h =
      let (r, at, same, (s, reads)) = subst (PointsTo t n) h (get_config-PointsTo n) in
      (s, ap (str_at t) h ∙ ap (λ o. o >>= λ r. read_str r.value) at ∙ reads)

  pub get_int-some :
      (n : XmlName)
      → get_config n ≡ some (xml_int, index n)
      → (v : ℕ) × (get_int t n ≡ some v) × (v < 2 ^ 64)
  unfolding get_int int_at PointsTo ReadsAs
  get_int-some n h =
      let (r, at, same, (v, reads, small)) = subst (PointsTo t n) h (get_config-PointsTo n) in
      (v, ap (int_at t) h ∙ ap (λ o. o >>= λ r. read_int r.value) at ∙ reads, small)
