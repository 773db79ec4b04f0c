-- ===== src/Session/Sessions.antt =====
-- internal/session/daemon_session.go: sessions open, subscribe and close, and the heartbeat that a
-- relay negotiates. A session's worker stops when its connection is gone; what it still had to do
-- is a request that comes before `close_session`.
use devvm.Prelude.{
  ℕ, suc, ◌*◌, Bool, false, not, ◌&&◌, ◌||◌, ◌∷◌, ◌++◌, Option, none, some, ltb, if◌then◌else◌,
}
use Prim.Native.Nat.{min}
use devvm.Session.Owner.{connection, same}
use devvm.Session.Fwd.{is_none}
use devvm.Session.Daemon.{
  Transport, Carrier, hub_relay, event_carrier, plain, Sess, Daemon, is_up, sess_ids, remove_sess,
  drop_matching,
}

carries : Carrier → Bool
carries (hub_relay b) = b
carries (event_carrier b) = b
carries (plain b) = b

-- `carriesEventsLocked`.
unfoldable pub carries_events : Option Transport → Bool
unfolding carries
carries_events none = false
carries_events (some tr) = carries tr.carrier

-- `openSession`: the session and its Bridge echo, unless a relay is refused.
unfoldable pub open_session : Bool → Daemon → Daemon × Option (Sess × Bool)
unfolding carries_events
open_session relay d =
    if relay && (not (is_up d.state) || is_none d.tr)
    then (d, none)
    else (let s : Sess = record { id = suc d.next_conn; relay = relay } in
        (
          record d { next_conn = suc d.next_conn; sessions = s ∷ d.sessions },
          some (s, carries_events d.tr),
        ))

-- `closeSession`.
unfoldable pub close_session : ℕ → Daemon → Daemon
unfolding drop_matching remove_sess
close_session i d =
    drop_matching (λ o e. same o (connection i))
      (record d { sessions = remove_sess i d.sessions; subs = remove_sess i d.subs })

unfoldable pub subscribe : Sess → Daemon → Daemon
unfolding remove_sess
subscribe s d = record d { subs = s ∷ remove_sess s.id d.subs }

unfoldable pub unsubscribe : Sess → Daemon → Daemon
unfolding remove_sess
unsubscribe s d = record d { subs = remove_sess s.id d.subs }

-- `closeAllSessions`: the connections that it closes.
unfoldable pub close_all_sessions : Daemon → Daemon
close_all_sessions d = record d { hung_up = sess_ids d.sessions ++ d.hung_up }

abbrev pub max_heartbeat : ℕ
max_heartbeat = 3600

abbrev pub heartbeat_misses : ℕ
heartbeat_misses = 3

-- `serveSession`: the accepted heartbeat in seconds, 0 for none, and the read deadline it sets.
-- A negative request is none, so a number stands for the field.
unfoldable pub accepted_beat : Bool → ℕ → ℕ
accepted_beat relay asked = if relay && ltb 0 asked then min asked max_heartbeat else 0

unfoldable pub quiet_seconds : Bool → ℕ → ℕ
unfolding accepted_beat
quiet_seconds relay asked = heartbeat_misses * accepted_beat relay asked
