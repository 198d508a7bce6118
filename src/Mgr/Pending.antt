-- ===== src/Mgr/Pending.antt =====
-- `diaSendAppMsg`, `diaMgr_onMsg` and `dia_onTimeout` (common/src/diaMgr.c) on the table `diaHash` and
-- its timers. `none` is undefined behaviour.
use diameter.Common.{
  ℕ, Bool, true, false, ◌||◌, Option, none, some, ◌==◌, if◌then◌else◌, List, ◌∷◌, ◌>>=◌,
}
use diameter.Msg.{
  OsStatus, status_ok, system_failure, network_failure, MsgDecoded, cmd_code_cer, cmd_code_dwr,
  cmd_code_dpr, get_sess_id,
}
use diameter.Conn.Types.{TransportStatus, tcp_ok}
use diameter.Conn.Routing.{TpMsg, peer_msg, conn_status, has_flag}
use diameter.Mgr.Table.{HashData, Node, TableOps, first_node}

-- A call of the application: the function, the message or null, the application's data or null.
pub record Note : Type 0 where
  pub callback : ℕ
  pub msg : Option MsgDecoded
  pub app_data : Option ℕ

-- The table, the running timers with the elements they are for, and the calls so far, the last first.
pub record Mgr : Type 0 where
  pub nodes : List Node
  pub timers : List (ℕ × ℕ)
  pub notes : List Note

-- The node of an element of the table.
abbrev pub find_elem : ℕ → List Node → Option Node
find_elem e l = first_node (λ n. n.elem_id == e) l

-- `appCallback`, or else `diaNotifyApp` of the connection.
abbrev pub callback_or : Option ℕ → Option ℕ → Option ℕ
callback_or none other = other
callback_or (some f) other = some f

abbrev pub call : Option ℕ → Option MsgDecoded → Option ℕ → List Note → List Note
call none m d notes = notes
call (some f) m d notes = record { callback = f; msg = m; app_data = d } ∷ notes

-- The request that was sent with a session id: the node that the allocator gives, the timer that
-- `osStartTimer` gives.
abbrev pub add_request : Option (List ℕ) → HashData → ℕ → Mgr → Mgr
add_request none d e s = s
add_request (some k) d e s = record {
  nodes = record { elem_id = e; key = k; user_data = d } ∷ s.nodes;
  timers = (d.wait_resp_timer_id, e) ∷ s.timers;
  notes = s.notes;
}

abbrev pub is_tcp_ok : TransportStatus → Bool
is_tcp_ok tcp_ok = true
is_tcp_ok _ = false

-- `diaSendAppMsg`: the connection that is given, or the active one of the interface; the status of
-- `transport_send` on each connection.
unfoldable pub send_app_msg :
    Option ℕ
    → Option ℕ
    → (ℕ → TransportStatus)
    → Option (List ℕ)
    → Option ℕ
    → ℕ
    → ℕ
    → ℕ
    → Mgr
    → OsStatus × Mgr
send_app_msg none none send key callback app_data e t s = (system_failure, s)
send_app_msg none (some c) send key callback app_data e t s =
    if is_tcp_ok (send c)
    then (
      status_ok,
      add_request key
          (record { app_data = app_data; app_callback = callback; wait_resp_timer_id = t; dcb = c })
          e s,
    )
    else (network_failure, s)
send_app_msg (some c) active send key callback app_data e t s =
    if is_tcp_ok (send c)
    then (
      status_ok,
      add_request key
          (record { app_data = app_data; app_callback = callback; wait_resp_timer_id = t; dcb = c })
          e s,
    )
    else (network_failure, s)

-- An answer for a node: the timer is stopped if there is one, the application is called if there is a
-- function, and the node is deleted.
unfoldable pub answered : TableOps → Option ℕ → MsgDecoded → Node → Mgr → Mgr
answered h notify m n s = record {
  nodes = h.delete_element n.elem_id s.nodes;
  timers =
      if n.user_data.wait_resp_timer_id == 0
      then s.timers
      else h.stop_timer n.user_data.wait_resp_timer_id s.timers;
  notes =
      call (callback_or n.user_data.app_callback notify) (some m) (some n.user_data.app_data)
        s.notes;
}

-- Whether `diaConnMgr_onMsg` is called afterwards, and the state.
unfoldable pub on_node : TableOps → Option ℕ → MsgDecoded → Option Node → Mgr → Bool × Mgr
unfolding answered
on_node h notify m none s = (false, s)
on_node h notify m (some n) s = (true, answered h notify m n s)

unfoldable pub on_session : TableOps → Option ℕ → MsgDecoded → Option (List ℕ) → Mgr → Bool × Mgr
unfolding on_node
on_session h notify m none s = (true, s)
on_session h notify m (some k) s = on_node h notify m (h.get_element k s.nodes) s

unfoldable pub on_answer : TableOps → Option ℕ → MsgDecoded → Mgr → Bool × Mgr
unfolding on_session get_sess_id
on_answer h notify m s = on_session h notify m (get_sess_id m) s

abbrev pub is_base_cmd : ℕ → Bool
is_base_cmd c = c == cmd_code_cer || (c == cmd_code_dwr || c == cmd_code_dpr)

-- A message of the peer, on a connection with its `diaNotifyApp`.
unfoldable pub on_decoded : TableOps → Option ℕ → MsgDecoded → Mgr → Bool × Mgr
unfolding on_answer
on_decoded h notify m s =
    if is_base_cmd m.cmd_code
    then (true, s)
    else (if has_flag 0x80 m.cmd_flag
        then (
          true,
          record { nodes = s.nodes; timers = s.timers; notes = call notify (some m) none s.notes },
        )
        else on_answer h notify m s)

-- `diaMgr_onMsg`: the connection with its `diaNotifyApp`, if it is known, and the message that
-- `diaMsg_decode` gives. What is left is the call of `diaConnMgr_onMsg`, where there is one.
unfoldable pub mgr_on_msg :
    TableOps → Option (Option ℕ) → TpMsg → Option MsgDecoded → Mgr → Bool × Mgr
unfolding on_decoded
mgr_on_msg h none m d s = (false, s)
mgr_on_msg h (some notify) peer_msg none s = (false, s)
mgr_on_msg h (some notify) peer_msg (some d) s = on_decoded h notify d s
mgr_on_msg h (some notify) (conn_status st f) d s = (true, s)

unfoldable pub timed_out : TableOps → Option ℕ → Node → Mgr → Mgr
timed_out h none n s = s
timed_out h (some f) n s = record {
  nodes = h.delete_element n.elem_id s.nodes;
  timers = s.timers;
  notes = call (some f) none (some n.user_data.app_data) s.notes;
}

-- `dia_onTimeout` for a timer that has expired, on an element of the table; `none` is a node that has
-- been freed. `notify` is `diaNotifyApp` of each connection.
unfoldable pub on_timeout : TableOps → (ℕ → Option ℕ) → ℕ → ℕ → Mgr → Option Mgr
unfolding timed_out
on_timeout h notify t e s = find_elem e s.nodes >>= λ n. some (
    if t == n.user_data.wait_resp_timer_id
    then timed_out h (callback_or n.user_data.app_callback (notify n.user_data.dcb)) n s
    else s)

-- The expiry itself, which takes the timer off, and its handler.
unfoldable pub expire : TableOps → (ℕ → Option ℕ) → ℕ → ℕ → Mgr → Option Mgr
unfolding on_timeout
expire h notify t e s =
    on_timeout h notify t e
      (record { nodes = s.nodes; timers = h.stop_timer t s.timers; notes = s.notes })
