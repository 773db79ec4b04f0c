-- ===== src/Session/Supervise/Watched.antt =====
-- What `loop` may return for, and the transport while it goes on.
use devvm.Prelude.{
  true, ◌≡◌, refl, sym, ◌∙◌, subst, List, [], ◌∷◌, Option, none, some, if_rule, All,
}
use devvm.Session.Daemon.{Transport, Daemon, idle_now, on_dead, expire_ttl, drop_matching, detach}
use devvm.Session.Sessions.{close_all_sessions}
use devvm.Session.Rebind.Carries.{retry_pending-tr}
use devvm.Session.Reconnect.{
  Limits, Exit, came_back, told_to_stop, unmanaged_machine, nothing_held, Turn, still, ended,
  out_of_fuel, reconnect,
}
use devvm.Session.Reconnect.Detached.{
  IsDetached, LeavesDetached, IsSettled, reconnect-IsSettled, on_dead-IsDetached,
}
use devvm.Session.Supervise.{
  Signal, stop, open_url, dead, retry, idle, elsewhere, Watch, watching, redialing, leaves,
  no_transport, stuck, after_reconnect, on_signal, on_turn, loop, shutdown, supervise,
}

abbrev pub HasTransport : Daemon → Type 0
HasTransport d = (t : Transport) × (d.tr ≡ some t)

-- What the other goroutines do: they take no transport, and install none.
abbrev pub LeavesTransport : Signal → Type 0
LeavesTransport (dead ws) = All LeavesDetached ws
LeavesTransport (elsewhere f) = (d : Daemon) → HasTransport d → HasTransport (f d)
LeavesTransport _ = Unit {0}

-- The daemon where `loop` is, or has returned.
abbrev pub IsWatched : Watch → Type 0
IsWatched (watching d) = HasTransport d
IsWatched (redialing r d) = IsDetached d
IsWatched (leaves came_back d) = ⊥
IsWatched (leaves told_to_stop d) = Unit {0}
IsWatched (leaves unmanaged_machine d) = IsDetached d
IsWatched (leaves nothing_held d) = idle_now d ≡ true
IsWatched (no_transport d) = ⊥
IsWatched stuck = ⊥

after_reconnect-IsWatched : (t : Turn) → IsSettled t → IsWatched (after_reconnect t)
unfolding after_reconnect
after_reconnect-IsWatched (still r d) k = k
after_reconnect-IsWatched (ended came_back d) (t, at, is_up) = (t, at)
after_reconnect-IsWatched (ended told_to_stop d) k = tt
after_reconnect-IsWatched (ended unmanaged_machine d) k = k
after_reconnect-IsWatched (ended nothing_held d) (off, i) = i
after_reconnect-IsWatched out_of_fuel k = elim k [ ]

module _ (l : Limits) where
  on_signal-IsWatched :
      (s : Signal) (d : Daemon) → HasTransport d → LeavesTransport s → IsWatched (on_signal l s d)
  unfolding on_signal expire_ttl drop_matching
  on_signal-IsWatched stop d h k = tt
  on_signal-IsWatched open_url d h k = h
  on_signal-IsWatched (dead ws) d h k =
      after_reconnect-IsWatched (reconnect l ws (on_dead d))
        (reconnect-IsSettled l ws (on_dead d) (on_dead-IsDetached d) k)
  on_signal-IsWatched (retry forward now) d (t, at) k =
      let (e, back, same) = retry_pending-tr forward d in
      subst
        (λ (o : Option Daemon).
          IsWatched (elim o [ none ↦ stuck | some x ↦ watching (expire_ttl now x) ]))
        (sym back) (t, same ∙ at)
  on_signal-IsWatched idle d h k = if_rule IsWatched (idle_now d) (λ e. e) (λ e. h)
  on_signal-IsWatched (elsewhere f) d h k = k d h

  on_turn-IsWatched :
      (s : Signal) (d : Daemon) → HasTransport d → LeavesTransport s → IsWatched (on_turn l s d)
  unfolding on_turn
  on_turn-IsWatched s d (t, at) k =
      subst
        (λ (o : Option Transport).
          IsWatched (elim o [ none ↦ no_transport d | some x ↦ on_signal l s d ]))
        (sym at) (on_signal-IsWatched s d (t, at) k)

  follow :
      (ss : List Signal) (w : Watch)
      → ((e : Daemon) → HasTransport e → IsWatched (loop l ss e))
      → IsWatched w
      → IsWatched (elim w [
        | watching e ↦ loop l ss e
        | redialing r e ↦ redialing r e
        | leaves x e ↦ leaves x e
        | no_transport e ↦ no_transport e
        | stuck ↦ stuck
      ])
  follow ss (watching e) rest k = rest e k
  follow ss (redialing r e) rest k = k
  follow ss (leaves x e) rest k = k
  follow ss (no_transport e) rest k = elim k [ ]
  follow ss stuck rest k = elim k [ ]

loop-IsWatched :
    (l : Limits) (ss : List Signal) (d : Daemon)
    → HasTransport d
    → All LeavesTransport ss
    → IsWatched (loop l ss d)
unfolding loop
loop-IsWatched l [] d h k = h
loop-IsWatched l (s ∷ ss) d h k =
    follow l ss (on_turn l s d) (λ e g. loop-IsWatched l ss e g k.1) (on_turn-IsWatched l s d h k.0)

-- What is left of a daemon: the one that the loop left was shut down, and has no transport and no
-- forward.
abbrev pub IsLeft : Exit → Daemon → Type 0
IsLeft x e =
    (d : Daemon) × (e ≡ shutdown d) × IsWatched (leaves x d) × (e.tr ≡ none) × (e.forwards ≡ [])

abbrev pub IsSupervised : Watch → Type 0
IsSupervised (leaves x e) = IsLeft x e
IsSupervised w = IsWatched w

-- Where a daemon starts with a transport, and the other goroutines take none away, and while the
-- daemon reconnects install none and bind nothing: its supervision never finds itself without a
-- transport, and none of its passes runs out of fuel. While it supervises there is a transport;
-- while it reconnects there is none, and no forward is bound. It ends by a stop, by a machine that
-- is not devvm's, when there was no transport, or by the idle rule, when no forward was held and no
-- session was open; and then shutdown leaves no transport and no forward.
pub supervise-IsSupervised :
    (l : Limits) (ss : List Signal) (d : Daemon)
    → HasTransport d
    → All LeavesTransport ss
    → IsSupervised (supervise l ss d)
unfolding supervise shutdown detach close_all_sessions
supervise-IsSupervised l ss d h k = finish (loop l ss d) (loop-IsWatched l ss d h k)
  where
    finish :
        (w : Watch)
        → IsWatched w
        → IsSupervised (elim w [
          | watching e ↦ watching e
          | redialing r e ↦ redialing r e
          | leaves x e ↦ leaves x (shutdown e)
          | no_transport e ↦ no_transport (shutdown e)
          | stuck ↦ stuck
        ])
    finish (watching e) i = i
    finish (redialing r e) i = i
    finish (leaves x e) i = (e, refl, i, refl, refl)
    finish (no_transport e) i = elim i [ ]
    finish stuck i = elim i [ ]
