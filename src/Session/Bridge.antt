-- ===== src/Session/Bridge.antt =====
-- internal/session/bridge.go: the browser bridge, as far as the bind of the port that a URL names
-- (`bridgeBind`); Open has the rest. What other goroutines do between the critical sections of a bind
-- is an argument.
pub mod Url
pub mod Exact
pub mod InFlight
pub mod Confined
pub mod Subscriber
pub mod Open
use devvm.Prelude.{
  ℕ, ◌+◌, ◌*◌, ◌^◌, Bool, true, false, not, ◌&&◌, List, [], ◌∷◌, Option, none, some, ltb,
  if◌then◌else◌,
}
use devvm.Text.{Text}
use devvm.Session.Owner.{Owner, ttl, connection}
use devvm.Session.Fwd.{Fwd, is_none}
use devvm.Session.Table.{find}
use devvm.Session.Bind.{Forwarder, in_use, forward_failed, port_busy}
use devvm.Session.Daemon.{Sess, Daemon, is_up, session, remove}
use devvm.Session.Add.{
  AddReq, AddResult, AddErr, subscriber_gone, admit_refused, port_taken, bind_failed,
  removed_meanwhile, Answer, added_ok, add_failed,
}
use devvm.Session.Add.Binding.{Meanwhile, add_with}
use devvm.Session.RateLimit.{allow_open}
use devvm.Session.Bridge.Url.{Parser, sanitize, Classified, external, direct, redirect, classify}

-- Why an open is refused: the reasons of bridge.go, each with what its text names.
pub data Reason : Type 0 where
  refused_url : Reason
  rate_limited : Reason
  no_session : Reason
  privileged : ℕ → Reason
  reconnecting_now : Reason
  gone_away : Reason
  too_many_ephemerals : Reason
  callback_in_use : ℕ → Reason
  forward_broken : ℕ → AddErr → Reason
  v6_unavailable : Bool → ℕ → Reason
  no_reply : Reason
  unreadable : Reason

-- `callbackTTL`, in nanoseconds.
abbrev pub callback_ttl : ℕ
callback_ttl = 600 * 10 ^ 9

abbrev pub min_forward_port : ℕ
min_forward_port = 1024

-- What `bridgeBind` asks `addWith` for: a direct URL's forward is the session's and may bump; a
-- redirect's is a ttl's, and exact.
unfoldable pub bridge_request : ℕ → Bool → ℕ → Sess → AddReq
bridge_request port false now sub = record {
  pref = port;
  guest = port;
  exact = false;
  own = connection sub.id;
  expires = 0;
  capped = true;
}
bridge_request port true now sub = record {
  pref = port;
  guest = port;
  exact = true;
  own = ttl;
  expires = now + callback_ttl;
  capped = true;
}

-- `errors.Is(err, errPortBusy)`.
unfoldable pub is_port_busy : AddErr → Bool
is_port_busy subscriber_gone = false
is_port_busy admit_refused = false
is_port_busy (port_taken p g h) = true
is_port_busy (bind_failed (in_use p)) = true
is_port_busy (bind_failed (forward_failed port_busy)) = true
is_port_busy (bind_failed _) = false
is_port_busy (removed_meanwhile g) = false

unfoldable pub bind_reason : ℕ → Bool → AddErr → Reason
unfolding is_port_busy
bind_reason port exact subscriber_gone = gone_away
bind_reason port exact admit_refused = too_many_ephemerals
bind_reason port exact (port_taken p g h) =
    if exact then callback_in_use port else forward_broken port (port_taken p g h)
bind_reason port exact (bind_failed e) =
    if is_port_busy (bind_failed e) && exact
    then callback_in_use port
    else forward_broken port (bind_failed e)
bind_reason port exact (removed_meanwhile g) = forward_broken port (removed_meanwhile g)

-- `forwardV6`.
unfoldable pub forward_v6 : ℕ → Daemon → Bool
forward_v6 guest d = elim (find guest d.forwards) [ none ↦ false | some f ↦ f.v6 ]

-- The host port, or why not.
pub data Bridged : Type 0 where
  bridged : ℕ → Bridged
  denied : Reason → Bridged

-- `bridgeBind`, from what `addWith` answered on. An owner that this open added goes again where
-- the forward has no [::1] side and the URL names one.
unfoldable pub bridge_answer :
    ℕ → Bool → Bool → Sess → ℕ → Meanwhile → Daemon → Answer → Daemon × Bridged
unfolding bind_reason forward_v6 bridge_request
bridge_answer port exact v6 sub now m d (add_failed e) = (d, denied (bind_reason port exact e))
bridge_answer port exact v6 sub now m d (added_ok r) =
    if r.pending
    then (d, denied reconnecting_now)
    else if v6 && not (forward_v6 port (m.answered d))
    then (
      if r.added
          then (remove port (bridge_request port exact now sub).own (m.checked (m.answered d))).0
          else m.answered d,
      denied (v6_unavailable exact port),
    )
    else (if v6 then m.answered d else d, bridged r.host)

unfoldable pub bridge_done :
    ℕ → Bool → Bool → Sess → ℕ → Meanwhile → Option (Daemon × Answer) → Option (Daemon × Bridged)
unfolding bridge_answer
bridge_done port exact v6 sub now m none = none
bridge_done port exact v6 sub now m (some (d, a)) = some (bridge_answer port exact v6 sub now m d a)

-- `bridgeBind`: `exact` is whether the URL is a redirect. It is `none` where `addWith` waits for
-- another binder of the slot, which is no part of this run.
unfoldable pub bridge_bind :
    ℕ → Bool → Bool → Sess → ℕ → Forwarder → Bool → Meanwhile → Daemon → Option (Daemon × Bridged)
unfolding bridge_done bridge_request
bridge_bind port exact v6 sub now forward dead m d =
    bridge_done port exact v6 sub now m
      (add_with (bridge_request port exact now sub) forward dead m d)
