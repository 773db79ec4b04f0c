-- ===== src/Tests/Reconnect.antt =====
-- A reconnect after the transport died, and the supervision around it.
use devvm.Prelude.{◌*◌, ◌^◌, true, false, ◌≡◌, refl, List, [], ◌∷◌, ◌++◌, none, some, arith}
use Prim.Native.Nat.{compare, Ordering}
use devvm.Session.Owner.{conf, ttl, is_conf}
use devvm.Session.Fwd.{new_fwd}
use devvm.Session.Bind.{Forwarder, opened, refused, port_busy, bind, bind_from}
use devvm.Session.Daemon.{
  Transport, plain, Daemon, new_daemon, up, reconnecting, drop_matching, idle_now, held_count,
}
use devvm.Session.Reconnect.{
  reconnect_limits, vm_not_running, dial_failed, connected, Wake, stops, idles, kicks, waited,
  meanwhile, came_back, still, ended, reconnect,
}
use devvm.Session.Reconnect.Backoff.{streak, StaysPaced, reconnect-StaysPaced}
use devvm.Session.Reconnect.Serves.{daemon_after, BringsBack, reconnect-BringsBack}
use devvm.Session.Supervise.{Signal, open_url, dead, retry, idle, elsewhere, supervise}
use devvm.Session.Supervise.Watched.{IsSupervised, supervise-IsSupervised}

abbrev next : Transport
next = record { id = 2; carrier = plain true }

-- Port 8080 is taken by now, and the next one is free.
abbrev one_taken : Forwarder
one_taken host guest = elim (compare host 8080) [
  | Ordering.eq ↦ refused port_busy
  | _ ↦ opened (record { transport = 2; serial = host; v6 = true })
]

-- The conf holds 8080 and an exact 3000, and a ttl that is over held 5173.
abbrev cut_off : Daemon
cut_off = record (new_daemon next) {
  tr = none;
  state = reconnecting;
  forwards =
      new_fwd 0 8080 8080 false conf 0
      ∷ new_fwd 1 3000 3000 true conf 0
      ∷ new_fwd 2 5173 5173 false ttl 50
      ∷ [];
}

-- The daemon as it was before, on its first transport.
abbrev alive : Daemon
alive = record cut_off { tr = some next; state = up }

-- A dial that fails, a VM that does not run, a look at the idle rule, a kick by a client, and its
-- wake-up of the loop.
abbrev troubles : List Wake
troubles =
    waited dial_failed
    ∷ waited vm_not_running
    ∷ idles
    ∷ meanwhile (λ d. record d { kicked = true })
    ∷ kicks
    ∷ waited dial_failed
    ∷ []

backoff_after :
    reconnect reconnect_limits troubles cut_off
    ≡ still (record { backoff = 4 * 10 ^ 9; wait = 4 * 10 ^ 9 }) (record cut_off { kicked = false })
unfolding reconnect idle_now held_count
backoff_after = refl

reconnect-BringsBack_example :
    (e : Daemon) × (reconnect reconnect_limits
        (troubles ++ waited (connected next one_taken 100) ∷ stops ∷ [])
        cut_off
      ≡ ended came_back e)
    × BringsBack 100 (daemon_after troubles cut_off) e
unfolding bind bind_from idle_now held_count
reconnect-BringsBack_example =
    reconnect-BringsBack reconnect_limits 100 next one_taken troubles (stops ∷ []) cut_off
      ((refl, (refl, (refl, tt))), (refl, (refl, (refl, tt))), refl)
      (tt, (tt, (tt, ((λ d k. k), (tt, (tt, tt))))))

reconnect-StaysPaced_example :
    StaysPaced reconnect_limits (streak 0 troubles) (reconnect reconnect_limits troubles cut_off)
reconnect-StaysPaced_example = reconnect-StaysPaced reconnect_limits troubles cut_off (omega arith)

-- A tick, a death with a reconnect, and an exit where nothing is held any more.
abbrev signals : List Signal
signals =
    retry one_taken 100
    ∷ open_url
    ∷ dead (troubles ++ waited (connected next one_taken 100) ∷ [])
    ∷ elsewhere (drop_matching (λ o x. is_conf o))
    ∷ idle
    ∷ []

supervise-IsSupervised_example : IsSupervised (supervise reconnect_limits signals alive)
unfolding drop_matching
supervise-IsSupervised_example =
    supervise-IsSupervised reconnect_limits signals alive (next, refl)
      (tt, (tt, ((tt, (tt, (tt, ((λ d k. k), (tt, (tt, (tt, tt))))))), ((λ d k. k), (tt, tt)))))
