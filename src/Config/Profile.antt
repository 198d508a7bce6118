-- ===== src/Config/Profile.antt =====
-- What a configuration that was read says of this side (common/src/diaConfig.c).
use diameter.Common.{ℕ, ◌*◌, ◌%◌, ◌^◌, ◌≤◌, ◌<◌, ◌≡◌, refl, arith, true, some, leb, le→leb, List}
use native.Mathlib.Nat.{le-mul_of_pos_right}
use diameter.Config.Table.{
  XmlData, orig_host, orig_realm, product_name, firmware_revision, config_max_avp_inside_grp_avp,
  max_host_ip_num, config_local_ip, xml_data, get_config, get_str, get_int,
}
use diameter.Config.Typed.{ParserLaws, get_str-some, get_int-some}
use diameter.Config.Init.{
  Config, unread, Platform, returned, host_ip_bytes, keep_ip, after_parse, config_init,
}

pub record Profile : Type 0 where
  pub host : List ℕ
  pub realm : List ℕ
  pub product : List ℕ
  pub ip : List ℕ
  pub revision : ℕ
  pub max_members : ℕ

pub record Says (c : Config) (f : Profile) : Type 0 where
  pub host_read : get_str c.table orig_host ≡ some f.host
  pub realm_read : get_str c.table orig_realm ≡ some f.realm
  pub product_read : get_str c.table product_name ≡ some f.product
  pub revision_read : get_int c.table firmware_revision ≡ some f.revision
  pub members_read : get_int c.table config_max_avp_inside_grp_avp ≡ some f.max_members
  pub ip_kept : c.host_ip ≡ some f.ip
  pub one_ip : c.host_num ≡ 1

-- With a file that is read, memory, and at least one address allowed for, in an allocation of less than
-- 2 ^ 64 bytes, `diaConfig_init` returns with one address, which is the family and the four bytes of the
-- configured one, and with a configuration that has a host, a realm, a product, a revision and a
-- size of groups.
pub config_init-Says :
    (p : Platform) (laws : ParserLaws p.parser) (t : List XmlData) (num : ℕ)
    → p.parser.get_leaf_value xml_data ≡ some t
    → p.array_memory ≡ true
    → p.ip_memory ≡ true
    → get_int t max_host_ip_num ≡ some num
    → 1 ≤ num
    → p.vpl_size * num < 2 ^ 64
    → (c : Config) × (f : Profile) × (ip : List ℕ) × (config_init p unread ≡ some (returned c))
      × (c.table ≡ t)
      × Says c f
      × (get_str t config_local_ip ≡ some ip)
      × (f.ip ≡ host_ip_bytes p.af_ipv4 (p.s_addr ip))
unfolding config_init after_parse keep_ip get_config
config_init-Says p laws t num e am im en h small =
    let (host, eh) = get_str-some p.parser laws t e orig_host refl in
    let (realm, er) = get_str-some p.parser laws t e orig_realm refl in
    let (product, ep) = get_str-some p.parser laws t e product_name refl in
    let (ip, ei) = get_str-some p.parser laws t e config_local_ip refl in
    let (rev, ev, _) = get_int-some p.parser laws t e firmware_revision refl in
    let (max, ex, _) = get_int-some p.parser laws t e config_max_avp_inside_grp_avp refl in
    (
      record { table = t; host_ip = some (host_ip_bytes p.af_ipv4 (p.s_addr ip)); host_num = 1 },
      record {
        host = host;
        realm = realm;
        product = product;
        ip = host_ip_bytes p.af_ipv4 (p.s_addr ip);
        revision = rev;
        max_members = max;
      },
      ip,
      simp (e, en, am, ei, im, fits),
      refl,
      record {
        host_read = eh;
        realm_read = er;
        product_read = ep;
        revision_read = ev;
        members_read = ex;
        ip_kept = refl;
        one_ip = refl;
      },
      ei,
      refl,
    )
  where
    fits : leb p.vpl_size (p.vpl_size * num % 2 ^ 64) ≡ true
    fits = le→leb _ _ (omega (arith, le-mul_of_pos_right p.vpl_size h))
