-- ===== src/Mgr/Tests.antt =====
-- The table of the requests on concrete requests.
use diameter.Common.{
  ℕ, suc, ◌+◌, ◌-◌, ◌≡◌, refl, ◌∙◌, arith, ◌==◌, if◌then◌else◌, if_true, if_false, none, some, List,
  [], ◌∷◌,
}
use diameter.Msg.{MsgDecoded, avp, str, nil, cons, octet_string_type}
use diameter.Conn.Types.{tcp_ok}
use diameter.Conn.Routing.{peer_msg}
use diameter.Mgr.Table.{list_ops, list_ops-TableLaws}
use diameter.Mgr.Pending.{Mgr, send_app_msg, mgr_on_msg, expire}
use diameter.Mgr.Paired.{Differs, Paired, made_node}
use diameter.Mgr.Steps.{Reach, start, later, requested, received, Reach-Paired}
use diameter.Mgr.Spec.{view, replay}
use diameter.Mgr.Refines.{calls_of, Reach-replay}
use diameter.Mgr.Refs.{MemOps, MemLaws, refs_of, count}
use diameter.Mgr.Counted.{Reach-Counted}
use diameter.Mgr.Once.{send-expire}

-- One request that waits, with the session id 1 2, in the element 10 with the timer 20.
abbrev one_waiting : Mgr
one_waiting = record {
  nodes = made_node (1 ∷ 2 ∷ []) (some 7) 100 10 20 5 ∷ [];
  timers = (20, 10) ∷ [];
  notes = [];
}

-- A Location-Info-Answer with a session id.
abbrev lia : List ℕ → MsgDecoded
lia k = record {
  cmd_code = 302;
  cmd_flag = 0x40;
  len = 0;
  app_id = 16777216;
  h2h_id = 1;
  e2e_id = 1;
  avp_list = cons (avp 263 0x40 0 octet_string_type (str k)) nil;
}

-- A request with the session id 1 2 waits, a second one with the session id 3 goes out, the answer to the
-- first arrives, and the timer of the second expires.
second_sent :
    Reach list_ops
      ((send_app_msg none (some 5) (λ c. tcp_ok) (some (3 ∷ [])) none 200 11 21 one_waiting).1)
unfolding Differs send_app_msg
second_sent =
    later
      (later start
        (requested none (some 5) (λ c. tcp_ok) (1 ∷ 2 ∷ []) (some 7) 100 10 20 refl (λ c. tt)))
      (requested none (some 5) (λ c. tcp_ok) (3 ∷ []) none 200 11 21 refl
        (λ c. (refl, refl, refl, tt)))

abbrev second_waiting : Mgr
second_waiting =
    (mgr_on_msg list_ops (some (some 9)) peer_msg (some (lia (1 ∷ 2 ∷ [])))
      ((send_app_msg none (some 5) (λ c. tcp_ok) (some (3 ∷ [])) none 200 11 21 one_waiting).1)).1

Reach-Paired_example : Paired second_waiting
Reach-Paired_example =
    Reach-Paired list_ops list_ops-TableLaws second_waiting
      (later second_sent (received (some (some 9)) peer_msg (some (lia (1 ∷ 2 ∷ [])))))

-- The map has the second request, and the first one has been answered.
Reach-replay_example :
    view second_waiting
    ≡ replay
        (calls_of (later second_sent (received (some (some 9)) peer_msg (some (lia (1 ∷ 2 ∷ []))))))
Reach-replay_example =
    Reach-replay list_ops list_ops-TableLaws second_waiting
      (later second_sent (received (some (some 9)) peer_msg (some (lia (1 ∷ 2 ∷ [])))))

-- References as numbers.
abbrev refs : MemOps
refs = record {
  mem_ref = λ c r d. if c == d then suc (r d) else r d;
  free = λ c r d. if c == d then r d - 1 else r d;
}

refs-MemLaws : MemLaws refs
refs-MemLaws = record {
  ref_self = λ c d r h. if_true _ _ h;
  ref_other = λ c d r h. if_false _ _ h;
  free_self = λ c d n r h e. if_true _ _ h ∙ omega (arith, e);
  free_other = λ c d r h. if_false _ _ h;
}

-- The connection 5 has its own reference and that of the second request.
Reach-Counted_example :
    refs_of refs
      (λ c. 1)
      (later second_sent (received (some (some 9)) peer_msg (some (lia (1 ∷ 2 ∷ [])))))
      5
    ≡ 1 + count 5 second_waiting.nodes
Reach-Counted_example =
    Reach-Counted refs refs-MemLaws (λ c. 1) list_ops list_ops-TableLaws second_waiting
      (later second_sent (received (some (some 9)) peer_msg (some (lia (1 ∷ 2 ∷ []))))) 5

-- Without a function of the application, the node stays.
send-expire_example :
    expire list_ops
      (λ c. none)
      21
      11
      ((send_app_msg (some 5) none (λ c. tcp_ok) (some (3 ∷ [])) none 200 11 21 one_waiting).1)
    ≡ some (record {
      nodes = made_node (3 ∷ []) none 200 11 21 5 ∷ one_waiting.nodes;
      timers = one_waiting.timers;
      notes = [];
    })
send-expire_example =
    send-expire list_ops list_ops-TableLaws 5 none (λ c. tcp_ok) (3 ∷ []) none (λ c. none) 200 11 21
      one_waiting refl
