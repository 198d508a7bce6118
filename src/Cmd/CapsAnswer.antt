-- ===== src/Cmd/CapsAnswer.antt =====
-- The capabilities exchange answer against the request (diaBase/src/diaBaseCer.c).
use diameter.Common.{
  ℕ, ◌<◌, ◌≡◌, refl, sym, ap, ◌∙◌, arith, some, List, [], ◌∷◌, ◌++◌, ◌>>=◌, take, take-all, length,
  ◌≤◌, append_assoc,
}
use diameter.Dict.Info.{enc_u32, enc_group}
use diameter.Wire.Encode.{EncAvp, EncData, enc_avp, num}
use diameter.Wire.Message.{MsgAvp, plain}
use diameter.Build.AddList.{avp_add_list-take, item_value, HoldsValues, avps_of, avp_value}
use diameter.Cmd.Lists.{ListOps, ListLaws}
use diameter.Cmd.Param.{lists_from}
use diameter.Cmd.Codes.{HaveCode}
use diameter.Cmd.Capabilities.{
  CerParam, Capabilities, cer_opts, cer_avps, cea_avps, cea_opts, add_list, int_items, avp_items,
  plain_avps,
}
use diameter.Cmd.CapsOrder.{num_avps, five_of, cer_opts-take, cer_avps-after}

-- Numbers of 32 bits.
unfoldable pub AreWords : List ℕ → Type 0
AreWords [] = Unit {0}
AreWords (v ∷ l) = (v < 0x1_0000_0000) × AreWords l

abbrev nums : List ℕ → List EncData
nums [] = []
nums (v ∷ l) = num v ∷ nums l

abbrev values : List EncAvp → List EncData
values [] = []
values (a ∷ l) = avp_value a ∷ values l

nums-HoldsValues : (l : List ℕ) → AreWords l → HoldsValues enc_u32 (int_items l) (nums l)
unfolding HoldsValues AreWords item_value
nums-HoldsValues [] h = tt
nums-HoldsValues (v ∷ l) h = (ap (λ n. some (num n)) (omega (arith, h.0)), nums-HoldsValues l (h.1))

values-HoldsValues : (l : List EncAvp) → HoldsValues enc_group (avp_items l) (values l)
unfolding HoldsValues item_value
values-HoldsValues [] = tt
values-HoldsValues (a ∷ l) = (refl, values-HoldsValues l)

avps_of-nums : (code : ℕ) (l : List ℕ) → avps_of code (nums l) ≡ num_avps code l
avps_of-nums code [] = refl
avps_of-nums code (v ∷ l) = ap (λ k. plain (enc_avp code (num v)) ∷ k) (avps_of-nums code l)

avps_of-values :
    (code : ℕ) (l : List EncAvp)
    → HaveCode code (plain_avps l)
    → avps_of code (values l) ≡ plain_avps l
unfolding HaveCode
avps_of-values code [] h = refl
avps_of-values code (enc_avp c v ∷ l) h =
    λ i. plain (enc_avp (sym (h.0) i) v) ∷ avps_of-values code l (h.1) i

add_list-nums :
    (code : ℕ) (l : List ℕ) (k : List MsgAvp)
    → AreWords l
    → add_list code enc_u32 (int_items l) k ≡ some (k ++ five_of code l)
unfolding add_list
add_list-nums code l k h =
    ap (λ r. r >>= λ x. x.1)
      (avp_add_list-take code enc_u32 (int_items l) (nums l) k refl (nums-HoldsValues l h))
    ∙ ap (λ m. some (k ++ take 5 m)) (avps_of-nums code l)

add_list-values :
    (code : ℕ) (l : List EncAvp) (k : List MsgAvp)
    → HaveCode code (plain_avps l)
    → add_list code enc_group (avp_items l) k ≡ some (k ++ take 5 (plain_avps l))
unfolding add_list
add_list-values code l k h =
    ap (λ r. r >>= λ x. x.1)
      (avp_add_list-take code enc_group (avp_items l) (values l) k refl (values-HoldsValues l))
    ∙ ap (λ m. some (k ++ take 5 m)) (avps_of-values code l h)

pub cea_opts-cer :
    (c : Capabilities)
    → AreWords c.supported_vendor_ids
    → AreWords c.auth_app_ids
    → AreWords c.acct_app_ids
    → HaveCode 260 (plain_avps c.vendor_specific_app_ids)
    → length (plain_avps c.vendor_specific_app_ids) ≤ 5
    → cea_opts c ≡ some (cer_opts c)
unfolding cea_opts
cea_opts-cer c hs ha hk hv few = simp (
  add_list-nums 265 c.supported_vendor_ids _ hs,
  add_list-nums 258 c.auth_app_ids _ ha,
  add_list-nums 259 c.acct_app_ids _ hk,
  add_list-values 260 c.vendor_specific_app_ids _ hv,
  take-all 5 (plain_avps c.vendor_specific_app_ids) few,
  cer_opts-take,
  append_assoc,
)

module _ (d : ListOps) (laws : ListLaws d) where
  -- A Capabilities-Exchange-Answer holds the result code, and then the AVPs of the request for the same
  -- parameters in the same order, where the identifiers have 32 bits and there are at most five
  -- vendor specific applications, with the code 260.
  pub cea_avps-cer :
      (result_code : ℕ) (p : CerParam) (c : Capabilities) (extra : List MsgAvp)
      → AreWords c.supported_vendor_ids
      → AreWords c.auth_app_ids
      → AreWords c.acct_app_ids
      → HaveCode 260 (plain_avps c.vendor_specific_app_ids)
      → length (plain_avps c.vendor_specific_app_ids) ≤ 5
      → (cea_opts c >>= λ o. cea_avps d result_code p (lists_from o extra)) ≡ (
          cer_avps d p (lists_from (cer_opts c) extra) >>= λ l. some (record {
            out = plain (enc_avp 268 (num result_code)) ∷ l.out;
            opt = l.opt;
            extra = l.extra;
          }))
  unfolding cea_avps cer_avps
  cea_avps-cer result_code p c extra hs ha hk hv few =
      ap (λ r. r >>= λ o. cea_avps d result_code p (lists_from o extra))
        (cea_opts-cer c hs ha hk hv few)
      ∙ cer_avps-after d laws p c (plain (enc_avp 268 (num result_code)) ∷ []) extra hv
      ∙ sym (
          ap
            (λ r. r >>= λ l. some (record {
              out = plain (enc_avp 268 (num result_code)) ∷ l.out;
              opt = l.opt;
              extra = l.extra;
            }))
            (cer_avps-after d laws p c [] extra hv))
