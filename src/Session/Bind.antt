-- ===== src/Session/Bind.antt =====
-- internal/session/daemon.go: `bind`, the allocation of a host port. `forward` is the call of the
-- transport's method, an argument here: a run of `bind` tries each host port at most once, so any
-- behaviour of a transport during that run is a function of the two ports. Which error a `forward`
-- returns is read, as the source reads it, by `errors.Is`.
pub mod Range
use devvm.Prelude.{
  ℕ, zero, suc, ◌+◌, Bool, true, false, not, Option, none, some, ◌==◌, if◌then◌else◌,
}
use devvm.Session.Fwd.{Closer}

-- `port_busy` is errPortBusy and `hub_refused` is errHubRefused; `broken` is any other error.
pub data ForwardErr : Type 0 where
  port_busy : ForwardErr
  hub_refused : ForwardErr
  broken : ℕ → ForwardErr

pub data Outcome : Type 0 where
  opened : Closer → Outcome
  refused : ForwardErr → Outcome

abbrev pub Forwarder : Type 0
Forwarder = ℕ → ℕ → Outcome

pub data BindErr : Type 0 where
  no_transport : BindErr
  in_use : ℕ → BindErr
  exhausted : ℕ → ℕ → BindErr
  forward_failed : ForwardErr → BindErr

pub data BindRes : Type 0 where
  bound : ℕ → Closer → Bool → BindRes
  unbound : BindErr → BindRes

abbrev pub max_tries : ℕ
max_tries = 20

-- The exact case: one try.
unfoldable pub bind_exact : ℕ → Outcome → BindRes
bind_exact pref (opened c) = bound pref c false
bind_exact pref (refused port_busy) = unbound (in_use pref)
bind_exact pref (refused e) = unbound (forward_failed e)

-- The loop, with the tries that are left and the port `h` to try.
unfoldable pub bind_from : ℕ → Forwarder → ℕ → ℕ → ℕ → BindRes
bind_from zero forward pref guest h = unbound (exhausted guest pref)
bind_from (suc tries) forward pref guest h = elim (forward h guest) [
  | opened c ↦ bound h c (not (h == pref))
  | refused port_busy ↦ bind_from tries forward pref guest (h + 1)
  | refused hub_refused ↦ unbound (forward_failed hub_refused)
  | refused (broken m) ↦ unbound (forward_failed (broken m))
]

-- `none` is a nil transport.
unfoldable pub bind : Option Forwarder → ℕ → ℕ → Bool → BindRes
unfolding bind_exact
bind none pref guest exact = unbound no_transport
bind (some forward) pref guest true = bind_exact pref (forward pref guest)
bind (some forward) pref guest false = bind_from max_tries forward pref guest pref

-- What `rebindPending` counts as port contention: such a forward is left pending.
unfoldable pub contention : BindErr → Bool
contention no_transport = false
contention (in_use p) = true
contention (exhausted g p) = true
contention (forward_failed port_busy) = true
contention (forward_failed hub_refused) = true
contention (forward_failed (broken m)) = false
