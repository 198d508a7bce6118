-- ===== src/Conn/Cea.antt =====
-- `diaConnProcessCea` (diaBase/src/diaBaseCer.c): what a capabilities-exchange answer decides.
use diameter.Common.{
  ◌≡◌, refl, arith, ℕ, Option, none, some, List, ◌==◌, leb, ltb, ◌||◌, if◌then◌else◌, ◌>>=◌, Bool,
}
use diameter.Msg.{
  OsStatus, status_ok, null_pointer, event_failure, avp, AvpData, str, Avps, nil, cons, avp_code,
  avp_data, MsgDecoded, data_u32, code_result_code, code_experimental_result_code, code_orig_host,
  code_orig_realm,
}
use diameter.Conn.Types.{Dcb}

-- `data32 >= 3000 || data32 < 2000`. As an `int32_t` a pattern from 2 ^ 31 on is negative, so it is
-- below 2000; as a number it is at least 3000.
abbrev pub is_failure : ℕ → Bool
is_failure n = leb 3000 n || ltb n 2000

data_str : AvpData → Option (List ℕ)
data_str (str s) = some s
data_str _ = none

-- The loop over the AVPs after the first. `none` is a read of the wrong union member.
cea_loop : Avps → Dcb → Option (OsStatus × Dcb)
unfolding data_str data_u32
cea_loop nil d = some (status_ok, d)
cea_loop (cons a l) d =
    let rest : Dcb → Option (OsStatus × Dcb) = cea_loop l in
    if avp_code a == code_result_code || avp_code a == code_experimental_result_code
    then (data_u32 (avp_data a) >>= λ n. if is_failure n then some (event_failure, d) else rest d)
    else if avp_code a == code_orig_host
    then (data_str (avp_data a) >>= λ s. rest (record d { peer_host = s }))
    else if avp_code a == code_orig_realm
    then (data_str (avp_data a) >>= λ s. rest (record d { peer_realm = s }))
    else rest d

after_first : Avps → Dcb → Option (OsStatus × Dcb)
unfolding cea_loop
after_first nil d = none
after_first (cons a l) d = cea_loop l d

-- `pDiaDecoded->avpList.head->next` faults on a message with no AVP.
unfoldable pub process_cea : Option MsgDecoded → Dcb → Option (OsStatus × Dcb)
unfolding after_first
process_cea none d = some (null_pointer, d)
process_cea (some m) d = after_first m.avp_list d

-- The answer changes the peer's names and nothing else of the connection.
abbrev pub Framed : Dcb → Option (OsStatus × Dcb) → Type 0
Framed d none = Unit {0}
Framed d (some (_, d')) = d' ≡ record d { peer_host = d'.peer_host; peer_realm = d'.peer_realm }

cea_loop_frame : (l : Avps) (d : Dcb) → Framed d (cea_loop l d)
unfolding cea_loop
cea_loop_frame nil d = refl
cea_loop_frame (cons (avp code flag vendor_id type (str x)) l) d = ground (
  arith,
  cea_loop_frame l d,
  cea_loop_frame l (record d { peer_host = x }),
  cea_loop_frame l (record d { peer_realm = x }),
)
cea_loop_frame (cons (avp code flag vendor_id type _) l) d = ground (arith, cea_loop_frame l d)

pub process_cea_frame : (m : Option MsgDecoded) (d : Dcb) → Framed d (process_cea m d)
unfolding process_cea
process_cea_frame none d = refl
process_cea_frame (some m) d = go m.avp_list
  where
    go : (l : Avps) → Framed d (after_first l d)
    go nil = tt
    go (cons a l) = cea_loop_frame l d
