-- ===== src/Mgr/Once.antt =====
-- A request and what comes for it: common/src/diaMgr.c.
use diameter.Common.{
  ℕ, ◌≡◌, ap, ◌∙◌, arith, true, false, Option, none, some, ◌==◌, ==_refl, if_true, if_false, List,
  ◌∷◌,
}
use diameter.Msg.{status_ok, MsgDecoded, get_sess_id}
use diameter.Conn.Types.{TransportStatus, tcp_ok}
use diameter.Conn.Routing.{has_flag}
use diameter.Mgr.Table.{TableOps, TableLaws}
use diameter.Mgr.Pending.{
  Mgr, callback_or, call, is_tcp_ok, send_app_msg, answered, on_node, on_session, on_answer,
  is_base_cmd, on_decoded, timed_out, on_timeout, expire,
}
use diameter.Mgr.Paired.{same_key_refl, made_node}

-- A request goes out on the connection that is given, or else on the active one, and is recorded with
-- its timer, if the transport takes it.
pub sent :
    (c : ℕ) (active : Option ℕ) (send : ℕ → TransportStatus) (k : List ℕ) (f : Option ℕ)
    (ud e t : ℕ) (s : Mgr)
    → send c ≡ tcp_ok
    → send_app_msg (some c) active send (some k) f ud e t s ≡ (
      status_ok,
      record {
        nodes = made_node k f ud e t c ∷ s.nodes;
        timers = (t, e) ∷ s.timers;
        notes = s.notes;
      },
    )
unfolding send_app_msg
sent c active send k f ud e t s h = if_true _ _ (ap is_tcp_ok h)

-- A request that the transport takes, and then an answer with its session id, which is not of a base
-- command: the application is called once, by the function of the request or else of the connection,
-- with the answer and its own data; the node is gone, its timer is stopped, and the rest of the table
-- and of the timers is as it was.
pub send-answer :
    (h : TableOps) (laws : TableLaws h) (c : ℕ) (active : Option ℕ) (send : ℕ → TransportStatus)
    (k : List ℕ) (f notify : Option ℕ) (ud e t : ℕ) (m : MsgDecoded) (s : Mgr)
    → send c ≡ tcp_ok
    → (t == 0) ≡ false
    → is_base_cmd m.cmd_code ≡ false
    → has_flag 0x80 m.cmd_flag ≡ false
    → get_sess_id m ≡ some k
    → on_decoded h notify m ((send_app_msg (some c) active send (some k) f ud e t s).1) ≡ (
      true,
      record {
        nodes = s.nodes;
        timers = s.timers;
        notes = call (callback_or f notify) (some m) (some ud) s.notes;
      },
    )
unfolding on_decoded on_answer on_session on_node answered
send-answer h laws c active send k f notify ud e t m s hs ht hb hr hk =
    ap (λ r. on_decoded h notify m (r.1)) (sent c active send k f ud e t s hs)
    ∙ if_false _ _ hb
    ∙ if_false _ _ hr
    ∙ ap
        (λ j. on_session h notify m j (record {
          nodes = made_node k f ud e t c ∷ s.nodes;
          timers = (t, e) ∷ s.timers;
          notes = s.notes;
        }))
        hk
    ∙ ground (
      arith,
      laws.get_hit k (made_node k f ud e t c) s.nodes (same_key_refl k),
      laws.delete_hit e (made_node k f ud e t c) s.nodes (==_refl e),
      laws.stop_hit t (t, e) s.timers (==_refl t),
    )

-- A request that the transport takes, and then the expiry of its timer: where the request or the
-- connection has a function, it is called once, without a message, with the application's data, and the
-- table and the timers are as they were; where neither has, the node stays in the table and has
-- no timer any more.
pub send-expire :
    (h : TableOps) (laws : TableLaws h) (c : ℕ) (active : Option ℕ) (send : ℕ → TransportStatus)
    (k : List ℕ) (f : Option ℕ) (notify : ℕ → Option ℕ) (ud e t : ℕ) (s : Mgr)
    → send c ≡ tcp_ok
    → expire h notify t e ((send_app_msg (some c) active send (some k) f ud e t s).1)
      ≡ some (elim (callback_or f (notify c)) [
        | none ↦ record {
          nodes = made_node k f ud e t c ∷ s.nodes;
          timers = s.timers;
          notes = s.notes;
        }
        | some g ↦ record {
          nodes = s.nodes;
          timers = s.timers;
          notes = call (some g) none (some ud) s.notes;
        }
      ])
unfolding expire on_timeout timed_out
send-expire h laws c active send k f notify ud e t s hs =
    ap (λ r. expire h notify t e (r.1)) (sent c active send k f ud e t s hs)
    ∙ ground (
      arith,
      ==_refl e,
      ==_refl t,
      laws.delete_hit e (made_node k f ud e t c) s.nodes (==_refl e),
      laws.stop_hit t (t, e) s.timers (==_refl t),
    )
