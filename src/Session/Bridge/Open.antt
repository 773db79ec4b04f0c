-- ===== src/Session/Bridge/Open.antt =====
-- internal/session/bridge.go: `bridgeOpen`, from an open-url of the guest to the reply, and
-- internal/session/daemon_session.go: the delivery of its event. What the subscriber answers is an
-- argument.
use devvm.Prelude.{ℕ, Bool, true, false, not, List, [], ◌∷◌, Option, none, some, ltb, if◌then◌else◌}
use devvm.Text.{Text}
use devvm.Session.Fwd.{is_none}
use devvm.Session.Bind.{Forwarder}
use devvm.Session.Daemon.{Sess, Daemon, is_up, session}
use devvm.Session.RateLimit.{allow_open}
use devvm.Session.Bridge.Url.{Parser, sanitize, Classified, external, direct, redirect, classify}
use devvm.Session.Add.Binding.{Meanwhile}
use devvm.Session.Bridge.{
  Reason, min_forward_port, Bridged, bridge_bind, refused_url, rate_limited, no_session, privileged,
  reconnecting_now, gone_away, no_reply, unreadable, bridged, denied,
}

-- `BridgeEvent`: a URL with its kind, the guest port and the host port, 0 for none.
pub record BridgeEvent : Type 0 where
  pub url : Text
  pub kind : Classified
  pub guest : ℕ
  pub bound : ℕ

-- `OpenReply` as the bridge makes it, or the subscriber's own.
pub data Reply : Type 0 where
  refusal : Reason → ℕ → ℕ → Reply
  relayed : Text → Reply

-- What becomes of an event that was written to the subscriber.
pub data Heard : Type 0 where
  answers : Text → Heard
  garbles : Heard
  times_out : Heard
  hangs_up : Heard

-- `deliverTo` and the reading of its result. An event to a session that is not registered is not
-- written.
unfoldable deliver : Sess → BridgeEvent → (BridgeEvent → Heard) → Daemon → Reply
deliver sub ev hear d =
    if is_none (session sub.id d.sessions)
    then refusal gone_away ev.guest ev.bound
    else elim (hear ev) [
      | answers t ↦ relayed t
      | garbles ↦ refusal unreadable ev.guest ev.bound
      | times_out ↦ refusal no_reply ev.guest ev.bound
      | hangs_up ↦ refusal gone_away ev.guest ev.bound
    ]

-- The open of a URL that names a port, for the subscriber.
unfoldable open_bound :
    Text → Classified → ℕ → Sess → (BridgeEvent → Heard) → Daemon × Bridged → Daemon × Reply
unfolding deliver
open_bound raw c port sub hear (d, denied why) = (d, refusal why port 0)
open_bound raw c port sub hear (d, bridged host) =
    (d, deliver sub (record { url = raw; kind = c; guest = port; bound = host }) hear d)

unfoldable pub open_port :
    Text
    → Classified
    → ℕ
    → Bool
    → Bool
    → Sess
    → ℕ
    → Forwarder
    → Bool
    → Meanwhile
    → (BridgeEvent → Heard)
    → Daemon
    → Option (Daemon × Reply)
unfolding open_bound deliver bridge_bind
open_port raw c port exact v6 sub now forward dead m hear d =
    if sub.relay
    then some (d, deliver sub (record { url = raw; kind = c; guest = port; bound = 0 }) hear d)
    else if ltb port min_forward_port
    then some (d, refusal (privileged port) port 0)
    else if not (is_up d.state)
    then some (d, refusal reconnecting_now port 0)
    else elim (bridge_bind port exact v6 sub now forward dead m d) [
      | none ↦ none
      | some r ↦ some (open_bound raw c port sub hear r)
    ]

unfoldable pub open_kind :
    Text
    → Classified
    → Sess
    → ℕ
    → Forwarder
    → Bool
    → Meanwhile
    → (BridgeEvent → Heard)
    → Daemon
    → Option (Daemon × Reply)
unfolding deliver open_port
open_kind raw external sub now forward dead m hear d =
    some (d, deliver sub (record { url = raw; kind = external; guest = 0; bound = 0 }) hear d)
open_kind raw (direct port v6) sub now forward dead m hear d =
    open_port raw (direct port v6) port false v6 sub now forward dead m hear d
open_kind raw (redirect port v6) sub now forward dead m hear d =
    open_port raw (redirect port v6) port true v6 sub now forward dead m hear d

-- `bridgeOpen` after the rate limit, with the most recent subscriber.
unfoldable pub open_for :
    Parser
    → Text
    → List Sess
    → ℕ
    → Forwarder
    → Bool
    → Meanwhile
    → (BridgeEvent → Heard)
    → Daemon
    → Option (Daemon × Reply)
unfolding open_kind
open_for parse raw [] now forward dead m hear d = some (d, refusal no_session 0 0)
open_for parse raw (sub ∷ subs) now forward dead m hear d =
    open_kind raw (classify parse raw) sub now forward dead m hear d

-- `bridgeOpen`: the daemon after the open, and the guest's reply.
unfoldable pub bridge_open :
    Parser
    → Text
    → ℕ
    → Forwarder
    → Bool
    → Meanwhile
    → (BridgeEvent → Heard)
    → Daemon
    → Option (Daemon × Reply)
unfolding open_for
bridge_open parse raw now forward dead m hear d =
    let r = allow_open now d in
    if not (sanitize raw)
    then some (d, refusal refused_url 0 0)
    else if not r.1
    then some (r.0, refusal rate_limited 0 0)
    else open_for parse raw (r.0).subs now forward dead m hear r.0
