-- ===== src/Cmd/CapsOrder.antt =====
-- The order of the AVPs of the capabilities exchange (diaBase/src/diaBaseCer.c).
use diameter.Common.{
  ℕ, zero, suc, ◌+◌, ◌≡◌, refl, ap, ◌∙◌, arith, true, false, Bool-cases, inl, inr, Option, none,
  some, ltb, leb, if◌then◌else◌, if_true, if_false, List, [], ◌∷◌, ◌++◌, take, append-nil,
  append_assoc,
}
use diameter.Wire.Encode.{enc_avp, num, pl}
use diameter.Wire.Message.{MsgAvp, plain}
use diameter.Build.AddList.{max_same_avp_num}
use diameter.Cmd.Lists.{ListOps, ListLaws, has_code, matching, others}
use diameter.Cmd.Parts.{AvpLists}
use diameter.Cmd.Param.{lists_from}
use diameter.Cmd.Rules.{found, without, ready, step_laws, found_laws}
use diameter.Cmd.Codes.{HaveCode, HaveCode-other, NoCode-append, taken_off}
use diameter.Cmd.Capabilities.{
  ListPlus, CerParam, append_more_ips, cer_avps, u32_avps, plain_avps, firmware_avp, Capabilities,
  cer_opts,
}

abbrev pub num_avps : ℕ → List ℕ → List MsgAvp
num_avps code [] = []
num_avps code (v ∷ l) = plain (enc_avp code (num v)) ∷ num_avps code l

abbrev pub text_avps : ℕ → List (List ℕ) → List MsgAvp
text_avps code [] = []
text_avps code (t ∷ l) = plain (enc_avp code (pl t)) ∷ text_avps code l

over : (i : ℕ) → i + 1 ≡ max_same_avp_num → leb max_same_avp_num (suc i) ≡ true
over i h = ground arith

below : (i m : ℕ) → i + suc (suc m) ≡ max_same_avp_num → leb max_same_avp_num (suc i) ≡ false
below i m h = ground arith

-- A loop takes at most five values.
u32_avps-take :
    (i m code : ℕ) (l : List ℕ)
    → i + suc m ≡ max_same_avp_num
    → u32_avps i code l ≡ take (suc m) (num_avps code l)
unfolding u32_avps
u32_avps-take i m code [] h = refl
u32_avps-take i zero code (v ∷ l) h =
    ap (λ k. plain (enc_avp code (num v)) ∷ k) (if_true _ _ (over i h))
u32_avps-take i (suc m) code (v ∷ l) h =
    ap (λ k. plain (enc_avp code (num v)) ∷ k)
      (if_false _ _ (below i m h) ∙ u32_avps-take (suc i) m code l (omega arith))

-- The first address and at most four others.
abbrev pub host_ip_avps : ListPlus → List MsgAvp
host_ip_avps ips =
    plain (enc_avp 257 (pl ips.first))
    ∷ (if ltb 1 ips.count then take 4 (text_avps 257 ips.more) else [])

append_more_ips-take :
    (i m : ℕ) (more : List (List ℕ)) (l : AvpLists)
    → i + suc m ≡ max_same_avp_num
    → append_more_ips i more l
      ≡ some (record {
        out = l.out ++ take (suc m) (text_avps 257 more);
        opt = l.opt;
        extra = l.extra;
      })
unfolding append_more_ips
append_more_ips-take i m [] l h = simp append-nil
append_more_ips-take i zero (ip ∷ more) l h = simp (over i h)
append_more_ips-take i (suc m) (ip ∷ more) l h =
    simp (below i m h)
      (append_more_ips-take (suc i) m more _ (omega arith) ∙ simp (append_assoc {A = MsgAvp}))

more_ips-take :
    (ips : ListPlus) (l : AvpLists)
    → (if ltb 1 ips.count then append_more_ips 1 ips.more else some) l
      ≡ some (record {
        out = l.out ++ (if ltb 1 ips.count then take 4 (text_avps 257 ips.more) else []);
        opt = l.opt;
        extra = l.extra;
      })
more_ips-take ips l = elim (Bool-cases (ltb 1 ips.count)) [
  | inl e ↦ simp e (append_more_ips-take 1 3 ips.more l refl)
  | inr e ↦ simp (e, append-nil)
]

-- What is taken of the numbers.
abbrev pub five_of : ℕ → List ℕ → List MsgAvp
five_of code l = take 5 (num_avps code l)

five_of-HaveCode : (code n : ℕ) (l : List ℕ) → HaveCode code (take n (num_avps code l))
unfolding HaveCode
five_of-HaveCode code zero l = tt
five_of-HaveCode code (suc n) [] = tt
five_of-HaveCode code (suc n) (v ∷ l) = (refl, five_of-HaveCode code n l)

firmware-HaveCode : (rev : Option ℕ) → HaveCode 267 (firmware_avp rev)
unfolding HaveCode
firmware-HaveCode none = tt
firmware-HaveCode (some n) = (refl, tt)

firmware-found :
    (rev : Option ℕ)
    → (found 267 (firmware_avp rev) ≡ firmware_avp rev) × (without 267 (firmware_avp rev) ≡ [])
firmware-found none = (refl, refl)
firmware-found (some n) = (refl, refl)

pub cer_opts-take :
    (c : Capabilities)
    → cer_opts c
      ≡ plain (enc_avp 278 (num c.orig_state_id))
        ∷ (five_of 265 c.supported_vendor_ids
            ++ (five_of 258 c.auth_app_ids
                ++ (five_of 259 c.acct_app_ids
                    ++ (plain_avps c.vendor_specific_app_ids ++ firmware_avp c.firmware_rev))))
unfolding cer_opts
cer_opts-take c = simp (
  u32_avps-take 0 4 265 c.supported_vendor_ids refl,
  u32_avps-take 0 4 258 c.auth_app_ids refl,
  u32_avps-take 0 4 259 c.acct_app_ids refl,
)

-- The five groups of optional AVPs, one after another.
module _ (s a k v f : List MsgAvp) where
  abbrev Groups : Type 0
  Groups = HaveCode 265 s × HaveCode 258 a × HaveCode 259 k × HaveCode 260 v × HaveCode 267 f

  groups-taken :
      Groups
      → (matching (has_code 265) (s ++ (a ++ (k ++ (v ++ f)))) ≡ s)
        × (others (has_code 265) (s ++ (a ++ (k ++ (v ++ f)))) ≡ a ++ (k ++ (v ++ f)))
        × (matching (has_code 258) (a ++ (k ++ (v ++ f))) ≡ a)
        × (others (has_code 258) (a ++ (k ++ (v ++ f))) ≡ k ++ (v ++ f))
        × (matching (has_code 259) (k ++ (v ++ f)) ≡ k)
        × (others (has_code 259) (k ++ (v ++ f)) ≡ v ++ f)
        × (matching (has_code 260) (v ++ f) ≡ v)
        × (others (has_code 260) (v ++ f) ≡ f)
  groups-taken (hs, ha, hk, hv, hf) =
      let no_265 = NoCode-append 265 a (k ++ (v ++ f)) (HaveCode-other 258 265 a ha refl) (
        NoCode-append 265 k (v ++ f) (HaveCode-other 259 265 k hk refl) (
          NoCode-append 265 v f (HaveCode-other 260 265 v hv refl)
            (HaveCode-other 267 265 f hf refl))) in
      let no_258 = NoCode-append 258 k (v ++ f) (HaveCode-other 259 258 k hk refl) (
        NoCode-append 258 v f (HaveCode-other 260 258 v hv refl)
          (HaveCode-other 267 258 f hf refl)) in
      let no_259 =
        NoCode-append 259 v f (HaveCode-other 260 259 v hv refl)
          (HaveCode-other 267 259 f hf refl) in
      let (m1, o1) = taken_off 265 s (a ++ (k ++ (v ++ f))) hs no_265 in
      let (m2, o2) = taken_off 258 a (k ++ (v ++ f)) ha no_258 in
      let (m3, o3) = taken_off 259 k (v ++ f) hk no_259 in
      let (m4, o4) = taken_off 260 v f hv (HaveCode-other 267 260 f hf refl) in
      (m1, o1, m2, o2, m3, o3, m4, o4)

module _ (d : ListOps) (laws : ListLaws d) where
  pub cer_avps-after :
      (p : CerParam) (c : Capabilities) (out extra : List MsgAvp)
      → HaveCode 260 (plain_avps c.vendor_specific_app_ids)
      → cer_avps d p (record { out = out; opt = cer_opts c; extra = extra })
        ≡ some (record {
          out =
              out
              ++ (plain (enc_avp 264 (pl p.realm_host.orig_host))
                  ∷ plain (enc_avp 296 (pl p.realm_host.orig_realm))
                  ∷ (host_ip_avps p.host_ip_list
                      ++ (plain (enc_avp 266 (num p.vendor_id))
                          ∷ plain (enc_avp 269 (pl p.product_name))
                          ∷ plain (enc_avp 278 (num c.orig_state_id))
                          ∷ (five_of 265 c.supported_vendor_ids
                              ++ (five_of 258 c.auth_app_ids
                                  ++ (five_of 259 c.acct_app_ids
                                      ++ (plain_avps c.vendor_specific_app_ids
                                          ++ (firmware_avp c.firmware_rev ++ extra))))))));
          opt = [];
          extra = [];
        })
  unfolding cer_avps
  cer_avps-after p c out extra h =
      let (m1, o1, m2, o2, m3, o3, m4, o4) =
        groups-taken (five_of 265 c.supported_vendor_ids) (five_of 258 c.auth_app_ids)
          (five_of 259 c.acct_app_ids) (plain_avps c.vendor_specific_app_ids)
          (firmware_avp c.firmware_rev)
          (
            five_of-HaveCode 265 5 c.supported_vendor_ids,
            five_of-HaveCode 258 5 c.auth_app_ids,
            five_of-HaveCode 259 5 c.acct_app_ids,
            h,
            firmware-HaveCode c.firmware_rev,
          ) in
      let (firmware, rest) = firmware-found c.firmware_rev in
      simp (cer_opts-take, more_ips-take, step_laws, laws)
        (simp (found_laws, laws) (simp (m1, o1, m2, o2, m3, o3, m4, o4) (simp (firmware, rest))))

  -- With an address, a Capabilities-Exchange-Request holds in this order: the origin, the first
  -- address and at most four others, the vendor, the product, the state id, at most five supported
  -- vendors, at most five authentication applications, at most five accounting applications, all
  -- vendor specific applications, the firmware revision if there is one, and what the application
  -- gives. The vendor specific applications have the code 260.
  pub cer_avps-order :
      (p : CerParam) (c : Capabilities) (extra : List MsgAvp)
      → HaveCode 260 (plain_avps c.vendor_specific_app_ids)
      → cer_avps d p (lists_from (cer_opts c) extra)
        ≡ some (
            ready
              (plain (enc_avp 264 (pl p.realm_host.orig_host))
                ∷ plain (enc_avp 296 (pl p.realm_host.orig_realm))
                ∷ (host_ip_avps p.host_ip_list
                    ++ (plain (enc_avp 266 (num p.vendor_id))
                        ∷ plain (enc_avp 269 (pl p.product_name))
                        ∷ plain (enc_avp 278 (num c.orig_state_id))
                        ∷ (five_of 265 c.supported_vendor_ids
                            ++ (five_of 258 c.auth_app_ids
                                ++ (five_of 259 c.acct_app_ids
                                    ++ (plain_avps c.vendor_specific_app_ids
                                        ++ (firmware_avp c.firmware_rev ++ extra))))))))
              [])
  cer_avps-order p c extra h = cer_avps-after p c [] extra h
