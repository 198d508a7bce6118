-- ===== src/Cmd/Capabilities.antt =====
-- diaBase/src/diaBaseCer.c: the capabilities exchange request and answer that are sent. A null list is
-- the empty one. An AVP of a block that has ended is read as what it was.
use diameter.Common.{
  ℕ, suc, Option, none, some, ltb, leb, if◌then◌else◌, List, [], ◌∷◌, ◌++◌, ◌>>=◌,
}
use diameter.Msg.{CmdHdrInfo}
use diameter.Dict.Info.{EncodeDataType, enc_u32, enc_group}
use diameter.Wire.Encode.{EncAvp, enc_avp, num, pl}
use diameter.Wire.Message.{MsgAvp, plain, MsgOut}
use diameter.Build.AddList.{Item, int_item, avp_item, max_same_avp_num, avp_add_list}
use diameter.Cmd.Lists.{ListOps}
use diameter.Cmd.Parts.{
  AvpLists, Step, ◌then◌, append_value, move_opt, move_all_opt, move_rest_opt, move_rest_extra,
}
use diameter.Cmd.Param.{Env, RealmHost, get_host_realm, lists_from, encode_lists, no_msg}

-- `osListPlus_t` (osList.h, which this repository does not hold): the count, the first value, the others.
pub record ListPlus : Type 0 where
  pub count : ℕ
  pub first : List ℕ
  pub more : List (List ℕ)

-- `diaBaseCerParam_t` without the lists of optional AVPs.
pub record CerParam : Type 0 where
  pub realm_host : RealmHost
  pub host_ip_list : ListPlus
  pub vendor_id : ℕ
  pub product_name : List ℕ

-- The loop over the addresses behind the first, from the index `i` on.
unfoldable pub append_more_ips : ℕ → List (List ℕ) → Step
append_more_ips i [] l = some l
append_more_ips i (ip ∷ more) l =
    append_value 257 (pl ip) l
    >>= (if leb max_same_avp_num (suc i) then some else append_more_ips (suc i) more)

unfoldable pub append_host_ips : ListPlus → Step
unfolding append_more_ips
append_host_ips ips l =
    append_value 257 (pl ips.first) l
    >>= (if ltb 1 ips.count then append_more_ips 1 ips.more else some)

-- `diaCxCer_encode` up to `diaMsg_encode`, with an address.
unfoldable pub cer_avps : ListOps → CerParam → Step
unfolding append_host_ips append_more_ips move_opt move_all_opt move_rest_opt move_rest_extra
cer_avps d p =
    append_value 264 (pl p.realm_host.orig_host)
    then append_value 296 (pl p.realm_host.orig_realm)
    then append_host_ips p.host_ip_list
    then append_value 266 (num p.vendor_id)
    then append_value 269 (pl p.product_name)
    then move_opt d 278
    then move_all_opt d 265
    then move_all_opt d 258
    then move_all_opt d 259
    then move_all_opt d 260
    then move_opt d 267
    then move_rest_opt
    then move_rest_extra

unfoldable pub cer_encode : Env → ListOps → CerParam → AvpLists → CmdHdrInfo → Option MsgOut
unfolding cer_avps encode_lists
cer_encode env d p l ids =
    if ltb p.host_ip_list.count 1
    then some (no_msg env ids)
    else (cer_avps d p l >>= encode_lists env 257 0x80 0 ids)

-- The loop over a list of numbers, from the index `i` on.
unfoldable pub u32_avps : ℕ → ℕ → List ℕ → List MsgAvp
u32_avps i code [] = []
u32_avps i code (v ∷ l) =
    plain (enc_avp code (num v))
    ∷ (let rest = u32_avps (suc i) code l in if leb max_same_avp_num (suc i) then [] else rest)

abbrev pub plain_avps : List EncAvp → List MsgAvp
plain_avps [] = []
plain_avps (a ∷ l) = plain a ∷ plain_avps l

abbrev pub firmware_avp : Option ℕ → List MsgAvp
firmware_avp none = []
firmware_avp (some rev) = plain (enc_avp 267 (num rev)) ∷ []

-- What the configuration says of this side; `orig_state_id` is `diaGetOrigStateId`.
pub record Capabilities : Type 0 where
  pub vendor_id : ℕ
  pub orig_state_id : ℕ
  pub supported_vendor_ids : List ℕ
  pub auth_app_ids : List ℕ
  pub acct_app_ids : List ℕ
  pub vendor_specific_app_ids : List EncAvp
  pub firmware_rev : Option ℕ

-- `optAvpList` of `diaBuildCer`.
unfoldable pub cer_opts : Capabilities → List MsgAvp
unfolding u32_avps
cer_opts c =
    plain (enc_avp 278 (num c.orig_state_id))
    ∷ (u32_avps 0 265 c.supported_vendor_ids
        ++ (u32_avps 0 258 c.auth_app_ids
            ++ (u32_avps 0 259 c.acct_app_ids
                ++ (plain_avps c.vendor_specific_app_ids ++ firmware_avp c.firmware_rev))))

abbrev pub cer_param : Env → Capabilities → ListPlus → List ℕ → CerParam
cer_param env c ips product = record {
  realm_host = get_host_realm env.host env.realm;
  host_ip_list = ips;
  vendor_id = c.vendor_id;
  product_name = product;
}

-- The list of addresses, the product name and the ids may be null: then there is no message.
unfoldable pub build_cer :
    Env
    → ListOps
    → Capabilities
    → Option ListPlus
    → Option (List ℕ)
    → List MsgAvp
    → Option CmdHdrInfo
    → Option (Option MsgOut)
unfolding cer_encode cer_opts
build_cer env d c (some ips) (some product) extra (some ids) =
    cer_encode env d (cer_param env c ips product) (lists_from (cer_opts c) extra) ids >>= λ r.
    some (some r)
build_cer env d c _ _ extra _ = some none

-- `diaCxCea_encode` up to `diaMsg_encode`, with an address.
unfoldable pub cea_avps : ListOps → ℕ → CerParam → Step
unfolding append_host_ips append_more_ips move_opt move_all_opt move_rest_opt move_rest_extra
cea_avps d result_code p =
    append_value 268 (num result_code)
    then append_value 264 (pl p.realm_host.orig_host)
    then append_value 296 (pl p.realm_host.orig_realm)
    then append_host_ips p.host_ip_list
    then append_value 266 (num p.vendor_id)
    then append_value 269 (pl p.product_name)
    then move_opt d 278
    then move_all_opt d 265
    then move_all_opt d 258
    then move_all_opt d 259
    then move_all_opt d 260
    then move_opt d 267
    then move_rest_opt
    then move_rest_extra

unfoldable pub cea_encode : Env → ListOps → ℕ → CerParam → AvpLists → CmdHdrInfo → Option MsgOut
unfolding cea_avps encode_lists
cea_encode env d result_code p l ids =
    if ltb p.host_ip_list.count 1
    then some (no_msg env ids)
    else (cea_avps d result_code p l >>= encode_lists env 257 0 0 ids)

abbrev pub int_items : List ℕ → List Item
int_items [] = []
int_items (v ∷ l) = int_item v ∷ int_items l

abbrev pub avp_items : List EncAvp → List Item
avp_items [] = []
avp_items (a ∷ l) = avp_item a ∷ avp_items l

-- `diaAvpAddList`, whose status is not looked at.
unfoldable pub add_list : ℕ → EncodeDataType → List Item → List MsgAvp → Option (List MsgAvp)
unfolding avp_add_list
add_list code type items l = avp_add_list (some l) (some items) code type >>= λ r. r.1

-- `optAvpList` of `diaBuildCea`.
unfoldable pub cea_opts : Capabilities → Option (List MsgAvp)
unfolding add_list
cea_opts c =
    add_list 265 enc_u32 (int_items c.supported_vendor_ids)
      (plain (enc_avp 278 (num c.orig_state_id)) ∷ [])
    >>= add_list 258 enc_u32 (int_items c.auth_app_ids)
    >>= add_list 259 enc_u32 (int_items c.acct_app_ids)
    >>= add_list 260 enc_group (avp_items c.vendor_specific_app_ids)
    >>= λ l. some (l ++ firmware_avp c.firmware_rev)

unfoldable pub build_cea :
    Env
    → ListOps
    → ℕ
    → Capabilities
    → Option ListPlus
    → Option (List ℕ)
    → List MsgAvp
    → Option CmdHdrInfo
    → Option (Option MsgOut)
unfolding cea_encode cea_opts
build_cea env d result_code c (some ips) (some product) extra (some ids) = cea_opts c >>= λ opts.
    cea_encode env d result_code (cer_param env c ips product) (lists_from opts extra) ids >>= λ r.
    some (some r)
build_cea env d result_code c _ _ extra _ = some none
