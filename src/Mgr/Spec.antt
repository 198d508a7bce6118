-- ===== src/Mgr/Spec.antt =====
-- What common/src/diaMgr.c promises: a map from session ids to the requests that wait, without nodes,
-- timers and connections, and the calls of the application.
use diameter.Common.{ℕ, Bool, true, false, Option, none, some, if◌then◌else◌, List, [], ◌∷◌}
use diameter.Msg.{MsgDecoded, get_sess_id}
use diameter.Conn.Routing.{TpMsg, peer_msg, has_flag}
use diameter.Mgr.Table.{Node, same_key, find_key}
use diameter.Mgr.Pending.{Note, Mgr, callback_or, call, is_base_cmd}

-- What the application gave with a request.
pub record Waiting : Type 0 where
  pub callback : Option ℕ
  pub app_data : ℕ

pub record View : Type 0 where
  pub waiting : List ℕ → Option Waiting
  pub notes : List Note

-- The map, changed at one session id.
abbrev pub update : List ℕ → Option Waiting → (List ℕ → Option Waiting) → List ℕ → Option Waiting
update k w f q = if same_key k q then w else f q

-- A request of a session, and whether the transport took it; what the transport delivers; the end of the
-- time of a session, with the function of its connection.
pub data Call : Type 0 where
  request_sent : (taken : Bool) (k : List ℕ) (callback : Option ℕ) (app_data : ℕ) → Call
  msg_received : (conn : Option (Option ℕ)) (t : TpMsg) (m : Option MsgDecoded) → Call
  time_expired : (k : List ℕ) (notify : Option ℕ) → Call

abbrev pub noted : Option ℕ → Option MsgDecoded → Waiting → List Note → List Note
noted notify m w notes = call (callback_or w.callback notify) m (some w.app_data) notes

-- The request of a session is over, and the application is told; without such a request nothing happens.
abbrev pub taken_off : List ℕ → Option ℕ → Option MsgDecoded → Option Waiting → View → View
taken_off k notify m none v = v
taken_off k notify m (some w) v = record {
  waiting = update k none v.waiting;
  notes = noted notify m w v.notes;
}

abbrev pub answer : Option ℕ → MsgDecoded → Option (List ℕ) → View → View
answer notify m none v = v
answer notify m (some k) v = taken_off k notify (some m) (v.waiting k) v

abbrev pub request : Option ℕ → MsgDecoded → View → View
request notify m v = record v { notes = call notify (some m) none v.notes }

unfoldable pub spec : Call → View → View
unfolding get_sess_id
spec (request_sent true k f ud) v = record v {
  waiting = update k (some (record { callback = f; app_data = ud })) v.waiting;
}
spec (request_sent false k f ud) v = v
spec (msg_received (some notify) peer_msg (some m)) v =
    if is_base_cmd m.cmd_code
    then v
    else (if has_flag 0x80 m.cmd_flag
        then request notify m v
        else answer notify m (get_sess_id m) v)
spec (msg_received _ _ _) v = v
spec (time_expired k notify) v = taken_off k notify none (v.waiting k) v

abbrev pub blank : View
blank = record { waiting = λ k. none; notes = [] }

-- The calls of a list, the last one first.
unfoldable pub replay : List Call → View
unfolding spec
replay [] = blank
replay (c ∷ l) = spec c (replay l)

-- What the table is for its users.
abbrev pub waiting_of : Option Node → Option Waiting
waiting_of none = none
waiting_of (some n) =
    some (record { callback = n.user_data.app_callback; app_data = n.user_data.app_data })

abbrev pub view : Mgr → View
view s = record { waiting = λ k. waiting_of (find_key k s.nodes); notes = s.notes }
