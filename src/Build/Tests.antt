-- ===== src/Build/Tests.antt =====
-- The theorems on lists and groups at concrete inputs.
use diameter.Common.{◌≡◌, refl, arith, some, [], ◌∷◌}
use diameter.Msg.{status_ok}
use diameter.Dict.Info.{
  enc_u32, get_avp_info, base_get_avp_info, cx_get_avp_info, cx_get_reused_avp_info,
}
use diameter.Dict.Rows.{find_row}
use diameter.Dict.Base.{base_rows_1, base_rows_2}
use diameter.Dict.Cx.{cx_rows_1, cx_rows_2, cx_reused_rows}
use diameter.Wire.Words.{be3, be4}
use diameter.Wire.Shape.{wire, Fits}
use diameter.Build.Cleanup.{
  HeldAvps, held, number, string, group, no_more, and_held, encode_avp_cleanup, grp_cleanup,
  written, cleanup-blocks,
}
use diameter.Wire.Encode.{enc_avp, num, grouped, no_avp, add_avp}
use diameter.Wire.Message.{plain}
use diameter.Build.AddList.{int_item, item_value, HoldsValues, avp_add_list, avp_add_list-take}
use diameter.Build.Group.{grp_create, grp_add_all, grp_add_all-take}

two_values : HoldsValues enc_u32 (int_item 5 ∷ int_item 6 ∷ []) (num 5 ∷ num 6 ∷ [])
unfolding HoldsValues item_value
two_values = (refl, (refl, tt))

avp_add_list-take_example :
    avp_add_list (some []) (some (int_item 5 ∷ int_item 6 ∷ [])) 258 enc_u32
    ≡ some (status_ok, some (plain (enc_avp 258 (num 5)) ∷ plain (enc_avp 258 (num 6)) ∷ []))
avp_add_list-take_example =
    avp_add_list-take 258 enc_u32 (int_item 5 ∷ int_item 6 ∷ []) (num 5 ∷ num 6 ∷ []) [] refl
      two_values

-- Three members for an array of three: the last is left out.
grp_add_all-take_example :
    grp_add_all 3
      (enc_avp 266 (num 1) ∷ enc_avp 258 (num 2) ∷ enc_avp 259 (num 3) ∷ [])
      (grp_create 260)
    ≡ some (
        enc_avp 260
          (grouped (add_avp (enc_avp 266 (num 1)) (add_avp (enc_avp 258 (num 2)) no_avp))))
grp_add_all-take_example =
    grp_add_all-take 3 260 (enc_avp 266 (num 1) ∷ enc_avp 258 (num 2) ∷ enc_avp 259 (num 3) ∷ [])
      (omega arith) (omega arith)

-- Server-Capabilities in block 1, with its array in block 2 and the name of a server in block 3.
abbrev capabilities : HeldAvps
capabilities = and_held (held 604 (number 11)) (and_held (held 602 (string 3 (115 ∷ []))) no_more)

capabilities-Fits : Fits 300 (written (held 603 (group 1 2 capabilities)))
unfolding Fits wire be3 be4 get_avp_info base_get_avp_info cx_get_avp_info cx_get_reused_avp_info
    find_row base_rows_1 base_rows_2 cx_rows_1 cx_rows_2 cx_reused_rows
capabilities-Fits =
    (omega arith, (((omega arith, tt), ((omega arith, omega arith), tt)), omega arith))

cleanup-blocks_example :
    (encode_avp_cleanup (held 603 (group 1 2 capabilities)) ≡ some (3 ∷ 2 ∷ 1 ∷ []))
    × (grp_cleanup (held 603 (group 1 2 capabilities)) ≡ some (3 ∷ 2 ∷ 1 ∷ []))
cleanup-blocks_example = cleanup-blocks 300 603 1 2 capabilities capabilities-Fits
