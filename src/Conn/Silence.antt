-- ===== src/Conn/Silence.antt =====
-- A peer that falls silent (common/src/diaConnState.c): each time the watchdog runs, and expires.
use diameter.Common.{
  ◌≡◌, refl, ap, sym, subst, ◌∙◌, ◌<◌, true, false, Option, none, some, contains, arith,
}
use diameter.Msg.{CmdHdrInfo, result_code_none}
use diameter.Conn.Types.{opened, suspect, down, timeout, get_group, no_fd, watchdog, tp_wait_conn}
use diameter.Conn.Os.{Os, dwr, TimerLaws, ListLaws}
use diameter.Conn.Steps.{
  Sys, start, clear, set_wait_dwa, send_common_msg, notify_failover, conn_start, conn_stop,
  enter_state, close_fd,
}
use diameter.Conn.Membership.{on_active, failover_placed}
use diameter.Conn.Frames.{enter_state-dcb}
use diameter.Conn.Connected.{on_msg, open_on_msg, suspect_on_msg, down_on_msg}

module _ (os : Os) where
  -- The watchdog timer of the connection expires.
  abbrev pub expire : Sys os → Option (Sys os)
  expire s = on_msg os timeout none s.dcb.timer_watchdog s

  -- A connection in four steps: it waits for the answer to a DWR; it is suspect, and its peer is not used
  -- for new requests; it is down, without its socket; it is being set up again.
  pub record IsEscalated (sent : os.World) (s1 s2 s3 s4 : Sys os) : Type 0 where
    pub opened1 : s1.dcb.conn_state ≡ opened
    pub sent1 : s1.world ≡ (os.start_timer os.time_watchdog sent).1
    pub waits1 : s1.dcb.is_wait_dwa ≡ true
    pub suspect2 : s2.dcb.conn_state ≡ suspect
    pub unused2 : on_active os s2 ≡ false
    pub down3 : s3.dcb.conn_state ≡ down
    pub unused3 : on_active os s3 ≡ false
    pub closed3 :
        s3.world ≡ (os.start_timer os.time_watchdog (close_fd os s2.dcb.tcp_fd s2.world)).1
    pub down4 : s4.dcb.conn_state ≡ down
    pub connected4 : s4.dcb.tcp_fd ≡ (os.tp_connect s3.world).1
    pub armed4 : 0 < s4.dcb.timer_tp_wait_conn

  abbrev watch : Sys os → Sys os
  watch s = start os watchdog os.time_watchdog s

  -- The DWR is on its way.
  abbrev asked : CmdHdrInfo → os.World → Sys os → Sys os
  asked hdr w s =
      set_wait_dwa os true
        (watch (record s { dcb = record s.dcb { cmd_hdr_info = hdr }; world = w }))

  abbrev suspected : Sys os → Sys os
  suspected s = enter_state os suspect (watch (set_wait_dwa os false (notify_failover os s)))

  abbrev given_up : Sys os → Sys os
  given_up s = enter_state os down (watch (conn_stop os s))

  abbrev retried : Sys os → Sys os
  retried s = start os tp_wait_conn os.time_wait_conn (clear os watchdog (conn_start os s).1)

  expire-asked :
      (s : Sys os) (buf : os.Buf) (hdr : CmdHdrInfo) (w : os.World)
      → s.dcb.conn_state ≡ opened
      → s.dcb.is_wait_dwa ≡ false
      → os.build dwr true result_code_none s.dcb.cmd_hdr_info s.world ≡ (some buf, hdr, w)
      → expire s ≡ some (asked hdr (os.tp_send buf w).1 s)
  unfolding on_msg open_on_msg send_common_msg
  expire-asked s buf hdr w e z b = ground arith

  expire-suspected :
      (s : Sys os)
      → s.dcb.conn_state ≡ opened
      → s.dcb.is_wait_dwa ≡ true
      → expire s ≡ some (suspected s)
  unfolding on_msg open_on_msg
  expire-suspected s e z = ground arith

  expire-given_up :
      (s : Sys os)
      → s.dcb.conn_state ≡ suspect
      → 0 < s.dcb.timer_watchdog
      → expire s ≡ some (given_up s)
  unfolding on_msg suspect_on_msg
  expire-given_up s e z = ground arith

  expire-retried :
      (s : Sys os)
      → s.dcb.conn_state ≡ down
      → s.dcb.is_server ≡ false
      → s.dcb.timer_tp_wait_conn ≡ 0
      → 0 < s.dcb.timer_watchdog
      → expire s ≡ some (retried s)
  unfolding on_msg down_on_msg
  expire-retried s e c n z = ground arith

  suspected-dcb :
      (s : Sys os)
      → (suspected s).dcb ≡ record s.dcb {
        conn_state = suspect;
        is_wait_dwa = false;
        timer_watchdog = (os.start_timer os.time_watchdog s.world).0;
      }
  unfolding notify_failover
  suspected-dcb s =
      enter_state-dcb os suspect (watch (set_wait_dwa os false (notify_failover os s)))

  given_up-dcb :
      (s : Sys os)
      → (given_up s).dcb ≡ record s.dcb {
        conn_state = down;
        timer_watchdog = (os.start_timer os.time_watchdog (close_fd os s.dcb.tcp_fd s.world)).0;
      }
  unfolding conn_stop
  given_up-dcb s = enter_state-dcb os down (watch (conn_stop os s))

  suspected-intf : (s : Sys os) → (suspected s).intf ≡ (notify_failover os s).intf
  unfolding enter_state
  suspected-intf s = ground arith

  suspected-unused : ListLaws os → (s : Sys os) → on_active os (suspected s) ≡ false
  unfolding notify_failover
  suspected-unused lists s =
      (λ i.
        contains (suspected-dcb s i).id
          (get_group (suspected-dcb s i).is_priority (suspected-intf s i)).active)
      ∙ (failover_placed os lists s).0

  given_up-intf : (s : Sys os) → (given_up s).intf ≡ s.intf
  unfolding conn_stop enter_state
  given_up-intf s = ground arith

  given_up-world :
      (s : Sys os)
      → (given_up s).world ≡ (os.start_timer os.time_watchdog (close_fd os s.dcb.tcp_fd s.world)).1
  unfolding conn_stop enter_state
  given_up-world s = ground arith

  given_up-unused : (s : Sys os) → on_active os (given_up s) ≡ on_active os s
  given_up-unused s = λ i.
      contains (given_up-dcb s i).id
        (get_group (given_up-dcb s i).is_priority (given_up-intf s i)).active

  conn_start-dcb :
      (s : Sys os)
      → (conn_start os s).1.dcb
        ≡ record s.dcb { tcp_fd = (os.tp_connect s.world).1; tp_tcp_fd = no_fd }
  unfolding conn_start
  conn_start-dcb s = refl

module _ (os : Os) (laws : TimerLaws os) (lists : ListLaws os) where
  -- An open client connection whose peer says nothing any more: when the watchdog expires, a DWR goes out;
  -- when it expires again, the peer is taken off the active list of its group; the third time the
  -- socket is closed and the connection is down; the fourth time a new one is set up. The DWR can
  -- be built, no DWA is awaited yet, and no connect timer runs.
  pub silent_peer :
      (s : Sys os) (buf : os.Buf) (hdr : CmdHdrInfo) (w : os.World)
      → s.dcb.conn_state ≡ opened
      → s.dcb.is_wait_dwa ≡ false
      → s.dcb.is_server ≡ false
      → s.dcb.timer_tp_wait_conn ≡ 0
      → os.build dwr true result_code_none s.dcb.cmd_hdr_info s.world ≡ (some buf, hdr, w)
      → (s1 : Sys os) × (s2 : Sys os) × (s3 : Sys os) × (s4 : Sys os) × (expire os s ≡ some s1)
        × (expire os s1 ≡ some s2)
        × (expire os s2 ≡ some s3)
        × (expire os s3 ≡ some s4)
        × IsEscalated os (os.tp_send buf w).1 s1 s2 s3 s4
  silent_peer s buf hdr w e z c n b =
      let s1 = asked os hdr (os.tp_send buf w).1 s in
      let s2 = suspected os s1 in
      let s3 = given_up os s2 in
      let d2 = suspected-dcb os s1 in
      let d3 = given_up-dcb os s2 in
      (
        s1,
        s2,
        s3,
        retried os s3,
        expire-asked os s buf hdr w e z b,
        expire-suspected os s1 e refl,
        expire-given_up os s2 (ap (λ x. x.conn_state) d2)
            (subst (λ x. 0 < x.timer_watchdog) (sym d2) (laws.start-pos _ _)),
        expire-retried os s3 (ap (λ x. x.conn_state) d3)
            (ap (λ x. x.is_server) d3 ∙ ap (λ x. x.is_server) d2 ∙ c)
            (ap (λ x. x.timer_tp_wait_conn) d3 ∙ ap (λ x. x.timer_tp_wait_conn) d2 ∙ n)
            (subst (λ x. 0 < x.timer_watchdog) (sym d3) (laws.start-pos _ _)),
        record {
          opened1 = e;
          sent1 = refl;
          waits1 = refl;
          suspect2 = ap (λ x. x.conn_state) d2;
          unused2 = suspected-unused os lists s1;
          down3 = ap (λ x. x.conn_state) d3;
          unused3 = given_up-unused os s2 ∙ suspected-unused os lists s1;
          closed3 = given_up-world os s2;
          down4 = ap (λ x. x.conn_state) (conn_start-dcb os s3) ∙ ap (λ x. x.conn_state) d3;
          connected4 = ap (λ x. x.tcp_fd) (conn_start-dcb os s3);
          armed4 = laws.start-pos _ _;
        },
      )
