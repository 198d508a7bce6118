-- ===== src/Config/Init.antt =====
-- `diaConfig_init` (common/src/diaConfig.c): the file is read, and the one address of this side is kept.
use diameter.Common.{
  ℕ, ◌*◌, ◌/◌, ◌%◌, ◌^◌, Bool, Option, none, some, leb, if◌then◌else◌, List, ◌∷◌, ◌>>=◌,
}
use diameter.Config.Table.{XmlData, max_host_ip_num, config_local_ip, xml_data, get_int, get_str}
use diameter.Config.Typed.{Parser}

-- The static variables: `diaConfig_xmlData`, the first entry of `gPlDiaHostIp`, where that is not null, and
-- `diaHostNum`.
pub record Config : Type 0 where
  pub table : List XmlData
  pub host_ip : Option (List ℕ)
  pub host_num : ℕ

abbrev pub unread : Config
unread = record { table = xml_data; host_ip = none; host_num = 0 }

-- What the function uses: the parser, whether `oszalloc` and `osmalloc` give memory, the size of an
-- `osVPointerLen_t`, `OS_AF_IPv4`, and the four bytes of the address as `osConvertPLton` stores them.
pub record Platform : Type 0 where
  pub parser : Parser
  pub array_memory : Bool
  pub ip_memory : Bool
  pub vpl_size : ℕ
  pub af_ipv4 : ℕ
  pub s_addr : List ℕ → List ℕ

-- The process exits, or the function returns.
pub data InitOut : Type 0 where
  exited : InitOut
  returned : Config → InitOut

-- `htobe16` of the family, which has 16 bits, and the address.
abbrev pub host_ip_bytes : ℕ → List ℕ → List ℕ
host_ip_bytes af addr = af / 256 % 256 ∷ af % 256 ∷ addr

-- An array that is too small for its first entry is written out of its bounds, as a null pointer is.
unfoldable pub keep_ip : Platform → List XmlData → ℕ → List ℕ → Option InitOut
keep_ip p t num ip =
    if p.ip_memory
    then (if leb p.vpl_size (p.vpl_size * num % 2 ^ 64)
        then some (
            returned (record {
              table = t;
              host_ip = some (host_ip_bytes p.af_ipv4 (p.s_addr ip));
              host_num = 1;
            }))
        else none)
    else none

unfoldable pub after_parse : Platform → Config → Option (List XmlData) → Option InitOut
unfolding keep_ip
after_parse p c none = some exited
after_parse p c (some t) = get_int t max_host_ip_num >>= λ num.
    if p.array_memory
    then (get_str t config_local_ip >>= λ ip. keep_ip p t num ip)
    else some (returned (record { table = t; host_ip = c.host_ip; host_num = c.host_num }))

-- `diaConfig_init`.
unfoldable pub config_init : Platform → Config → Option InitOut
unfolding after_parse
config_init p c = after_parse p c (p.parser.get_leaf_value c.table)
