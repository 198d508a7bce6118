-- ===== src/Dict/Tests.antt =====
-- The dictionary at concrete codes.
use diameter.Common.{◌≡◌, ◌≢◌, refl, some, ◌++◌}
use mathlib.Core.Logic.{◌↔◌}
use diameter.Msg.{unknown_type, uint32_type, octet_string_type}
use diameter.Dict.Rows.{row, find_row}
use diameter.Dict.Base.{base_rows_1, base_rows_2}
use diameter.Dict.Cx.{cx_rows_1, cx_rows_2, cx_reused_rows}
use diameter.Dict.Info.{base_rows, cx_rows, base_get_avp_info, get_avp_info, vendor_3gpp}
use diameter.Dict.BaseCodes.{AvpBaseCode, base_code}
use diameter.Dict.Listed.{AvpCode, code_of, get_avp_info-listed}
use diameter.Dict.Facts.{cx_precedence}

-- The Result-Code, by a base command.
result_code_info : get_avp_info 0 268 ≡ record { data_type = uint32_type; flag = 0; vendor_id = 0 }
unfolding get_avp_info base_get_avp_info find_row base_rows_1 base_rows_2
result_code_info = refl

get_avp_info-listed_example :
    (((get_avp_info 300 623).data_type ≢ unknown_type) ↔ ((c : AvpCode) × (code_of c ≡ 623)))
    × (((get_avp_info 0 623).data_type ≢ unknown_type) ↔ ((c : AvpBaseCode) × (base_code c ≡ 623)))
get_avp_info-listed_example = get_avp_info-listed 300 623 refl

found_606 :
    find_row 606 (cx_rows ++ (cx_reused_rows ++ base_rows)) ≡ some (row 606 0xc0 octet_string_type)
unfolding find_row base_rows_1 base_rows_2 cx_rows_1 cx_rows_2 cx_reused_rows
found_606 = refl

cx_precedence_example :
    get_avp_info 301 606
    ≡ record { data_type = octet_string_type; flag = 0xc0; vendor_id = vendor_3gpp }
cx_precedence_example = cx_precedence 301 606 (row 606 0xc0 octet_string_type) refl found_606
