-- ===== src/Conn/Demo.antt =====
-- A concrete outside, at which the theorems are applied: timers count up from 2, every connect and
-- send succeeds, and a peer list is a list of distinct ids.
use diameter.Common.{
  ℕ, ◌+◌, ◌≡◌, refl, true, false, Option, none, some, List, [], ◌∷◌, ◌++◌, arith, ◌==◌,
  if◌then◌else◌, contains,
}
use diameter.Msg.{MsgDecoded, avp, uint32_type, num32, nil, cons}
use diameter.Conn.Types.{
  ConnState, client_closed, tcp_conn, tcp_ok, no_fd, fd, pos, use_none, ConnMsgType,
}
use diameter.Conn.Os.{Os, TimerLaws, ListLaws}
use diameter.Conn.Steps.{Sys}
use diameter.Conn.Runs.{Event}

abbrev pub unlink : ℕ → List ℕ → List ℕ
unlink a [] = []
unlink a (x ∷ xs) = if a == x then unlink a xs else x ∷ unlink a xs

abbrev pub next_in : ℕ → List ℕ → Option ℕ
next_in a [] = none
next_in a (x ∷ []) = none
next_in a (x ∷ y ∷ l) = if a == x then some y else next_in a (y ∷ l)

abbrev pub demo : Os
demo = record {
  World = ℕ;
  Buf = ℕ;
  start_timer = λ ms w. (w + 2, w + 1);
  stop_timer = λ t w. (0, w);
  restart_timer = λ t w. (t, w);
  tp_connect = λ w. (tcp_conn, fd 3, w);
  tp_send = λ b w. (tcp_ok, w);
  tp_close = λ f w. w;
  is_os_status_ok = λ s. true;
  unlink_element = unlink;
  append_element = λ l a. l ++ (a ∷ []);
  next_element = next_in;
  build = λ c r n h w. (some 0, h, w);
  time_wait_conn = 60000;
  time_retry_conn = 120000;
  time_watchdog = 40000;
  time_transmit_wait = 5000;
}

pub demo-TimerLaws : TimerLaws demo
demo-TimerLaws = record {
  start-pos = λ ms w. omega arith;
  stop-zero = λ t w. refl;
  restart-pos = λ t w h. h;
}

contains-unlink :
    (a b : ℕ) (l : List ℕ) → contains b (unlink a l) ≡ (if b == a then false else contains b l)
contains-unlink a b [] = ground arith
contains-unlink a b (x ∷ l) = ground (arith, contains-unlink a b l)

contains-append :
    (a b : ℕ) (l : List ℕ) → contains b (l ++ (a ∷ [])) ≡ (if b == a then true else contains b l)
contains-append a b [] = ground arith
contains-append a b (x ∷ l) = ground (arith, contains-append a b l)

pub demo-ListLaws : ListLaws demo
demo-ListLaws = record { contains-unlink = contains-unlink; contains-append = contains-append }

-- A client connection as `diaConnAddNewPeer` makes it, alone on the waiting list of its group.
abbrev pub fresh : Sys demo
fresh = record {
  dcb = record {
    id = 7;
    conn_state = client_closed;
    tcp_fd = fd 0;
    tp_tcp_fd = no_fd;
    num_dwa = pos 0;
    is_wait_dwa = false;
    is_server = false;
    is_priority = true;
    peer_host = [];
    peer_realm = [];
    cmd_hdr_info = record { h2h_id = 0; e2e_id = 0 };
    timer_tp_wait_conn = 0;
    timer_tp_retry_conn = 0;
    timer_watchdog = 0;
    timer_twt = 0;
  };
  intf = record {
    priority_group = record { active = []; waiting = 7 ∷ []; next_peer = none };
    stby_group = record { active = []; waiting = []; next_peer = none };
    intf_state = use_none;
  };
  world = 0;
}

abbrev pub in_state : ConnState → Sys demo
in_state c = record fresh {
  dcb = record fresh.dcb { conn_state = c; timer_watchdog = 9; timer_twt = 8 };
}

-- A successful CEA: an AVP that is passed over and the result code.
abbrev pub good_cea : MsgDecoded
good_cea = record {
  cmd_code = 257;
  cmd_flag = 0;
  len = 44;
  app_id = 0;
  h2h_id = 1;
  e2e_id = 1;
  avp_list =
      cons (avp 263 64 0 uint32_type (num32 0)) (cons (avp 268 0 0 uint32_type (num32 2001)) nil);
}

abbrev pub event : ConnMsgType → Option MsgDecoded → ℕ → Event
event m msg t = record { msg_type = m; decoded = msg; timer_id = t }

abbrev pub from_some {ℓ} : {A : Type ℓ} → A → Option A → A
from_some d none = d
from_some d (some a) = a
