-- ===== src/Session/Reconnect.antt =====
-- internal/session/daemon.go: `reconnect`, by which the daemon dials again after its transport
-- died. Its `select` waits for one thing after the other: these are a list, and so may any number
-- of them be. What the other goroutines do to the daemon meanwhile is a function in that list.
-- Durations are nanoseconds. Closing a transport is not recorded.
pub mod Backoff
pub mod Detached
pub mod Serves
pub mod Turns
use devvm.Prelude.{ℕ, ◌*◌, ◌^◌, Bool, true, false, List, [], ◌∷◌, none, some, leb, if◌then◌else◌}
use devvm.Session.Bind.{Forwarder}
use devvm.Session.Daemon.{Transport, Daemon, idle_now, detach}
use devvm.Session.Rebind.{restore}

-- `d.minBackoff` and `d.maxBackoff`.
pub record Limits : Type 0 where
  pub min_backoff : ℕ
  pub max_backoff : ℕ

abbrev pub reconnect_limits : Limits
reconnect_limits = record { min_backoff = 2 * 10 ^ 9; max_backoff = 30 * 10 ^ 9 }

-- What `dialInterruptible` gives: a stop that came first, an error, or a transport, with what it
-- answers to the binds and the time when it is restored.
pub data Dialed : Type 0 where
  stopped : Dialed
  unmanaged : Dialed
  vm_not_running : Dialed
  dial_failed : Dialed
  connected : Transport → Forwarder → ℕ → Dialed

-- What the `select` of `reconnect` receives.
pub data Wake : Type 0 where
  stops : Wake
  idles : Wake
  kicks : Wake
  waited : Dialed → Wake
  meanwhile : (Daemon → Daemon) → Wake

-- The backoff, and how long the timer `wait` was last set for.
pub record Retry : Type 0 where
  pub backoff : ℕ
  pub wait : ℕ

-- Why `reconnect` returns: `true` in the first case, `false` in the others.
pub data Exit : Type 0 where
  came_back : Exit
  told_to_stop : Exit
  unmanaged_machine : Exit
  nothing_held : Exit

-- Where `reconnect` is: in its loop, or over. The passes of `restore` are on fuel.
pub data Turn : Type 0 where
  still : Retry → Daemon → Turn
  ended : Exit → Daemon → Turn
  out_of_fuel : Turn

abbrev pub lesser : ℕ → ℕ → ℕ
lesser m n = if leb m n then m else n

-- A failed attempt.
unfoldable pub back_off : Limits → Retry → Daemon → Turn
back_off l r d =
    let b = lesser (r.backoff * 2) l.max_backoff in still (record { backoff = b; wait = b }) d

-- The end of an attempt that has a transport: `teardown` follows a `restore` that failed.
unfoldable pub settle_attempt : Limits → Retry → Daemon × Bool → Turn
unfolding back_off
settle_attempt l r (e, true) = ended came_back e
settle_attempt l r (e, false) = back_off l r (detach e)

unfoldable pub attempt : Limits → Dialed → Retry → Daemon → Turn
unfolding back_off settle_attempt
attempt l stopped r d = ended told_to_stop d
attempt l unmanaged r d = ended unmanaged_machine d
attempt l vm_not_running r d = back_off l r d
attempt l dial_failed r d = back_off l r d
attempt l (connected tr forward now) r d = elim (restore now tr forward d) [
  | none ↦ out_of_fuel
  | some x ↦ settle_attempt l r x
]

-- One turn of the loop.
unfoldable pub on_wake : Limits → Wake → Retry → Daemon → Turn
unfolding attempt
on_wake l stops r d = ended told_to_stop d
on_wake l idles r d = if idle_now d then ended nothing_held d else still r d
on_wake l kicks r d =
    still (record { backoff = l.min_backoff; wait = 0 }) (record d { kicked = false })
on_wake l (waited x) r d = attempt l x r d
on_wake l (meanwhile f) r d = still r (f d)

unfoldable pub reconnect_from : Limits → List Wake → Retry → Daemon → Turn
unfolding on_wake
reconnect_from l [] r d = still r d
reconnect_from l (w ∷ ws) r d = elim (on_wake l w r d) [
  | still q e ↦ reconnect_from l ws q e
  | ended x e ↦ ended x e
  | out_of_fuel ↦ out_of_fuel
]

-- `reconnect`.
unfoldable pub reconnect : Limits → List Wake → Daemon → Turn
unfolding reconnect_from
reconnect l ws d = reconnect_from l ws (record { backoff = l.min_backoff; wait = l.min_backoff }) d
