-- ===== src/Session/Supervise.antt =====
-- internal/session/daemon.go: `loop`, which supervises the daemon, and `shutdown` behind it. What
-- its `select` receives is a list, as for `reconnect`. An open of a URL runs on a goroutine of its
-- own (Session/Bridge), and so is part of what the others do meanwhile.
pub mod Watched
use devvm.Prelude.{ℕ, Bool, true, false, List, [], ◌∷◌, none, some, if◌then◌else◌}
use devvm.Session.Bind.{Forwarder}
use devvm.Session.Daemon.{Daemon, idle_now, expire_ttl, detach, on_dead}
use devvm.Session.Sessions.{close_all_sessions}
use devvm.Session.Rebind.{retry_pending}
use devvm.Session.Reconnect.{
  Limits, Wake, Retry, Exit, came_back, told_to_stop, unmanaged_machine, nothing_held, Turn, still,
  ended, out_of_fuel, reconnect,
}

-- What the `select` of `loop` receives: a stop, an open, the transport's death with what
-- `reconnect` receives then, a tick of `retry` with what the transport answers and the time, or
-- the idle timer; and what the other goroutines do meanwhile.
pub data Signal : Type 0 where
  stop : Signal
  open_url : Signal
  dead : List Wake → Signal
  retry : Forwarder → ℕ → Signal
  idle : Signal
  elsewhere : (Daemon → Daemon) → Signal

-- Where `loop` is: in its `select`, in `reconnect`, or over; `no_transport` is the return that the
-- source calls a bug.
pub data Watch : Type 0 where
  watching : Daemon → Watch
  redialing : Retry → Daemon → Watch
  leaves : Exit → Daemon → Watch
  no_transport : Daemon → Watch
  stuck : Watch

unfoldable pub after_reconnect : Turn → Watch
after_reconnect (still r d) = redialing r d
after_reconnect (ended came_back d) = watching d
after_reconnect (ended told_to_stop d) = leaves told_to_stop d
after_reconnect (ended unmanaged_machine d) = leaves unmanaged_machine d
after_reconnect (ended nothing_held d) = leaves nothing_held d
after_reconnect out_of_fuel = stuck

unfoldable pub on_signal : Limits → Signal → Daemon → Watch
unfolding after_reconnect
on_signal l stop d = leaves told_to_stop d
on_signal l open_url d = watching d
on_signal l (dead ws) d = after_reconnect (reconnect l ws (on_dead d))
on_signal l (retry forward now) d = elim (retry_pending forward d) [
  | none ↦ stuck
  | some e ↦ watching (expire_ttl now e)
]
on_signal l idle d = if idle_now d then leaves nothing_held d else watching d
on_signal l (elsewhere f) d = watching (f d)

-- One turn of the loop: it looks for the transport first.
unfoldable pub on_turn : Limits → Signal → Daemon → Watch
unfolding on_signal
on_turn l s d = elim d.tr [ none ↦ no_transport d | some t ↦ on_signal l s d ]

-- `loop`.
unfoldable pub loop : Limits → List Signal → Daemon → Watch
unfolding on_turn
loop l [] d = watching d
loop l (s ∷ ss) d = elim (on_turn l s d) [
  | watching e ↦ loop l ss e
  | redialing r e ↦ redialing r e
  | leaves x e ↦ leaves x e
  | no_transport e ↦ no_transport e
  | stuck ↦ stuck
]

-- `shutdown`: the transport and its forwards go, then the sessions. The socket is I/O.
unfoldable pub shutdown : Daemon → Daemon
unfolding detach
shutdown d = close_all_sessions (record (detach d) { forwards = [] })

-- `run`, to the return of `loop` and through `shutdown`.
unfoldable pub supervise : Limits → List Signal → Daemon → Watch
unfolding shutdown loop
supervise l ss d = elim (loop l ss d) [
  | watching e ↦ watching e
  | redialing r e ↦ redialing r e
  | leaves x e ↦ leaves x (shutdown e)
  | no_transport e ↦ no_transport (shutdown e)
  | stuck ↦ stuck
]
