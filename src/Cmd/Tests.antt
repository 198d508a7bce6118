-- ===== src/Cmd/Tests.antt =====
-- The message builders on concrete parameters, and their theorems at concrete inputs.
use diameter.Common.{◌≡◌, refl, arith, true, false, none, some, ◌&&◌, [], ◌∷◌, length, ◌>>=◌}
use mathlib.Core.Logic.{◌↔◌}
use diameter.Msg.{MsgDecoded, get_result_code}
use diameter.Dict.Rows.{find_row}
use diameter.Dict.Base.{base_rows_1, base_rows_2}
use diameter.Dict.Info.{get_avp_info, base_get_avp_info}
use diameter.Wire.Words.{be3, be4}
use diameter.Wire.Buf.{MBuf}
use diameter.Wire.Encode.{enc_avp, num}
use diameter.Wire.Shape.{wire}
use diameter.Wire.Decode.{done, decode_msg}
use diameter.Wire.Message.{plain, MsgOut}
use diameter.Wire.MessageTrip.{received}
use diameter.Wire.Demo.{ops, ops-BufLaws, blank, given_ids, vsai}
use diameter.Cmd.Lists.{
  has_code, find_and_remove, get_next_and_remove, move_loop, first_ops, first_ops-ListLaws,
}
use diameter.Cmd.Parts.{AvpLists, has_any, last_two, move_all_opt, move_extra_last}
use diameter.Cmd.Moved.{move_all_opt-matching}
use diameter.Cmd.Trailer.{any, move_extra_last-none}
use diameter.Cmd.Param.{lists_from}
use diameter.Cmd.Watchdog.{build_dwa}
use diameter.Cmd.WatchdogTrip.{dwa_bytes, build_dwa-result_code}
use diameter.Cmd.Capabilities.{cer_avps, cer_opts, cea_avps, cea_opts}
use diameter.Cmd.Codes.{HaveCode}
use diameter.Cmd.CapsAnswer.{AreWords, cea_avps-cer}
use diameter.Cmd.Demo.{env, proxy, route, unknown, extra, some_lists, cer_param, capabilities}

move_all_opt-matching_example :
    move_all_opt first_ops 9000 some_lists
    ≡ some (record { out = unknown ∷ unknown ∷ unknown ∷ []; opt = proxy ∷ []; extra = extra })
move_all_opt-matching_example = move_all_opt-matching first_ops first_ops-ListLaws 9000 some_lists

move_extra_last-none_example :
    (move_extra_last first_ops some_lists ≡ none)
    ↔ ((has_any extra ≡ true) × ((any (has_code 284) extra && any (has_code 282) extra) ≡ false))
move_extra_last-none_example = move_extra_last-none first_ops first_ops-ListLaws some_lists

abbrev after_extra : AvpLists
after_extra = record {
  out = unknown ∷ plain (enc_avp 621 (num 2)) ∷ unknown ∷ proxy ∷ route ∷ [];
  opt = some_lists.opt;
  extra = [];
}

extra_moved : move_extra_last first_ops some_lists ≡ some after_extra
unfolding move_extra_last last_two find_and_remove move_loop get_next_and_remove
extra_moved = refl

vsai-HaveCode : HaveCode 260 (plain vsai ∷ [])
unfolding HaveCode
vsai-HaveCode = (refl, tt)

ids-AreWords : AreWords capabilities.supported_vendor_ids
unfolding AreWords
ids-AreWords =
    (omega arith, (omega arith, (omega arith, (omega arith, (omega arith, (omega arith, tt))))))

app-AreWords : AreWords capabilities.auth_app_ids
unfolding AreWords
app-AreWords = (omega arith, tt)

no-AreWords : AreWords []
unfolding AreWords
no-AreWords = tt

cea_avps-cer_example :
    (cea_opts capabilities >>= λ o. cea_avps first_ops 2001 cer_param (lists_from o [])) ≡ (
      cer_avps first_ops cer_param (lists_from (cer_opts capabilities) []) >>= λ l.
      some (record { out = plain (enc_avp 268 (num 2001)) ∷ l.out; opt = l.opt; extra = l.extra }))
cea_avps-cer_example =
    cea_avps-cer first_ops first_ops-ListLaws 2001 cer_param capabilities [] ids-AreWords
      app-AreWords no-AreWords vsai-HaveCode (omega arith)

dwa_len : length (dwa_bytes env 2001) ≡ 36
unfolding dwa_bytes wire be3 be4 get_avp_info base_get_avp_info find_row base_rows_1 base_rows_2
dwa_len = refl

build_dwa-result_code_example :
    (out : MsgOut) × (c : MBuf) × (m : MsgDecoded) × (build_dwa env 2001 none none []
        (some given_ids)
      ≡ some (some out))
    × (out.msg ≡ some c)
    × (decode_msg ops 80 (received c) ≡ done (some m))
    × (m.cmd_code ≡ 280)
    × (m.cmd_flag ≡ 0)
    × (m.h2h_id ≡ 17)
    × (m.e2e_id ≡ 18)
    × (get_result_code m ≡ some 2001)
build_dwa-result_code_example =
    build_dwa-result_code env ops-BufLaws 80 2001 given_ids blank refl (omega arith) (omega arith)
      (omega arith) (omega arith) (omega arith) (omega (arith, dwa_len)) (omega (arith, dwa_len))
      (omega (arith, dwa_len))
