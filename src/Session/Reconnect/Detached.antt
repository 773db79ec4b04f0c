-- ===== src/Session/Reconnect/Detached.antt =====
-- The transport over a reconnect: none until a restore has succeeded.
use devvm.Prelude.{
  Bool, true, false, ◌≡◌, refl, sym, subst, List, [], ◌∷◌, Option, none, some, if_rule, All,
}
use devvm.Session.Table.{Table}
use devvm.Session.Daemon.{
  Transport, Daemon, up, idle_now, detach, detach_all, on_dead, drop_owners, owned_by_relay,
}
use devvm.Session.Rebind.Carries.{IsRestored, restore-IsRestored}
use devvm.Session.Reconnect.{
  Limits, Dialed, stopped, unmanaged, vm_not_running, dial_failed, connected, Wake, stops, idles,
  kicks, waited, meanwhile, Retry, came_back, told_to_stop, unmanaged_machine, nothing_held, Turn,
  still, ended, out_of_fuel, back_off, settle_attempt, attempt, on_wake, reconnect,
}
use devvm.Session.Reconnect.Turns.{Lasts, reconnect_from-rule}

-- No transport, and no forward is bound.
abbrev pub IsDetached : Daemon → Type 0
IsDetached d = (d.tr ≡ none) × All (λ f. f.closer ≡ none) d.forwards

detach_all-none : (fs : Table) → All (λ f. f.closer ≡ none) (detach_all fs)
unfolding detach_all
detach_all-none [] = tt
detach_all-none (f ∷ fs) = (refl, detach_all-none fs)

pub detach-IsDetached : (d : Daemon) → IsDetached (detach d)
unfolding detach
detach-IsDetached d = (refl, detach_all-none d.forwards)

pub on_dead-IsDetached : (d : Daemon) → IsDetached (on_dead d)
unfolding on_dead detach
on_dead-IsDetached d =
    (refl, detach_all-none (drop_owners (owned_by_relay d.sessions) d.forwards).0)

-- What the other goroutines do while there is no transport: they install none and bind nothing.
abbrev pub LeavesDetached : Wake → Type 0
LeavesDetached (meanwhile f) = (d : Daemon) → IsDetached d → IsDetached (f d)
LeavesDetached _ = Unit {0}

-- The daemon where `reconnect` is, or has returned.
abbrev pub IsSettled : Turn → Type 0
IsSettled (still r d) = IsDetached d
IsSettled (ended came_back d) = (t : Transport) × (d.tr ≡ some t) × (d.state ≡ up)
IsSettled (ended told_to_stop d) = IsDetached d
IsSettled (ended unmanaged_machine d) = IsDetached d
IsSettled (ended nothing_held d) = IsDetached d × (idle_now d ≡ true)
IsSettled out_of_fuel = ⊥

abbrev IsOff : List Wake → Retry → Daemon → Type 0
IsOff ws r d = IsDetached d × All LeavesDetached ws

module _ (l : Limits) (ws : List Wake) (more : All LeavesDetached ws) where
  abbrev Goes : Turn → Type 0
  Goes = Lasts IsOff IsSettled ws

  settle_attempt-Goes :
      (t : Transport) (r : Retry) (x : Daemon × Bool) → IsRestored t x → Goes (settle_attempt l r x)
  unfolding settle_attempt back_off
  settle_attempt-Goes t r (e, true) k = (t, k.0, k.1)
  settle_attempt-Goes t r (e, false) k = (detach-IsDetached e, more)

  attempt-Goes : (x : Dialed) (r : Retry) (d : Daemon) → IsDetached d → Goes (attempt l x r d)
  unfolding attempt back_off
  attempt-Goes stopped r d k = k
  attempt-Goes unmanaged r d k = k
  attempt-Goes vm_not_running r d k = (k, more)
  attempt-Goes dial_failed r d k = (k, more)
  attempt-Goes (connected t forward now) r d k =
      let (x, back, at) = restore-IsRestored now t forward d in
      subst
        (λ (o : Option (Daemon × Bool)).
          Goes (elim o [ none ↦ out_of_fuel | some y ↦ settle_attempt l r y ]))
        (sym back) (settle_attempt-Goes t r x at)

on_wake-Lasts :
    (l : Limits) (w : Wake) (ws : List Wake) (r : Retry) (d : Daemon)
    → IsOff (w ∷ ws) r d
    → Lasts IsOff IsSettled ws (on_wake l w r d)
unfolding on_wake
on_wake-Lasts l stops ws r d (k, more) = k
on_wake-Lasts l idles ws r d (k, more) =
    if_rule (Lasts IsOff IsSettled ws) (idle_now d) (λ e. (k, e)) (λ e. (k, more.1))
on_wake-Lasts l kicks ws r d (k, more) = (k, more.1)
on_wake-Lasts l (waited x) ws r d (k, more) = attempt-Goes l ws more.1 x r d k
on_wake-Lasts l (meanwhile f) ws r d (k, more) = (more.0 d k, more.1)

pub reconnect-IsSettled :
    (l : Limits) (ws : List Wake) (d : Daemon)
    → IsDetached d
    → All LeavesDetached ws
    → IsSettled (reconnect l ws d)
unfolding reconnect
reconnect-IsSettled l ws d k more =
    reconnect_from-rule IsOff IsSettled l ws _ d (λ r e i. i.0) (on_wake-Lasts l) (k, more)
