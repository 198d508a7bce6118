-- ===== src/Mgr/Steps.antt =====
-- The life of the table of common/src/diaMgr.c: the calls that change it, one after the other.
use diameter.Common.{ℕ, ◌≡◌, refl, false, Option, some, List, [], ◌==◌}
use diameter.Msg.{MsgDecoded}
use diameter.Conn.Types.{TransportStatus}
use diameter.Conn.Routing.{TpMsg}
use diameter.Mgr.Table.{Node, TableOps, TableLaws}
use diameter.Mgr.Pending.{Mgr, callback_or, find_elem, send_app_msg, mgr_on_msg, expire}
use diameter.Mgr.Paired.{Differs, Distinct, Paired, made_node}
use diameter.Mgr.Kept.{mgr_on_msg-Paired, send_app_msg-Paired, expire-Paired}

-- A request goes out, with a node, a timer and a session id that are not in the table; a message is
-- received; the timer of a waiting request expires, whose request or connection has a function.
pub data Step (h : TableOps) (s : Mgr) : Mgr → Type 0 where
  requested :
      (dcb active : Option ℕ)
      → (send : ℕ → TransportStatus) → (k : List ℕ) → (f : Option ℕ) → (ud e t : ℕ)
      → (t == 0) ≡ false
      → ((c : ℕ) → Differs (made_node k f ud e t c) s.nodes)
      → Step h s ((send_app_msg dcb active send (some k) f ud e t s).1)
  received :
      (conn : Option (Option ℕ))
      → (t : TpMsg) → (m : Option MsgDecoded) → Step h s ((mgr_on_msg h conn t m s).1)
  expired :
      {s' : Mgr}
      → (notify : ℕ → Option ℕ) → (n : Node) → (f : ℕ) → find_elem n.elem_id s.nodes ≡ some n
      → callback_or n.user_data.app_callback (notify n.user_data.dcb) ≡ some f
      → expire h notify n.user_data.wait_resp_timer_id n.elem_id s ≡ some s'
      → Step h s s'

abbrev pub no_requests : Mgr
no_requests = record { nodes = []; timers = []; notes = [] }

pub data Reach (h : TableOps) : Mgr → Type 0 where
  start : Reach h no_requests
  later : {s s' : Mgr} → Reach h s → Step h s s' → Reach h s'

Step-Paired : (h : TableOps) (laws : TableLaws h) {s s' : Mgr} → Step h s s' → Paired s → Paired s'
Step-Paired h laws (requested dcb active send k f ud e t z d) p =
    send_app_msg-Paired dcb active send k f ud e t _ z d p
Step-Paired h laws (received conn t m) p = mgr_on_msg-Paired h laws conn t m _ p
Step-Paired h laws (expired notify n f e c x) p = expire-Paired h laws notify n f _ _ e c x p

-- From the empty table, through requests with nodes, timers and session ids of their own, messages and
-- transport events of any kind, and the expiry of timers of requests that the application has a
-- function for: each waiting request has its running timer, there is no timer without a waiting
-- request, and no two requests share a node, a timer or a session id.
pub Reach-Paired : (h : TableOps) (laws : TableLaws h) (s : Mgr) → Reach h s → Paired s
unfolding Distinct
Reach-Paired h laws s start = record { armed = refl; distinct = tt }
Reach-Paired h laws s (later r x) = Step-Paired h laws x (Reach-Paired h laws _ r)
