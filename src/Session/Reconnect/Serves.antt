-- ===== src/Session/Reconnect/Serves.antt =====
-- A reconnect that finds a transport that serves, after any attempts that failed.
use devvm.Prelude.{
  ℕ, Bool, true, false, ◌≡◌, refl, ◌∙◌, ap, List, [], ◌∷◌, ◌++◌, Option, none, some, All,
}
use devvm.Session.Fwd.{Fwd}
use devvm.Session.Table.{find}
use devvm.Session.Bind.{Forwarder}
use devvm.Session.Daemon.{Transport, Daemon, up, idle_now, expire_ttl}
use devvm.Session.Rebind.{job_of, restore}
use devvm.Session.Rebind.Slots.{owners_at}
use devvm.Session.Rebind.Live.{IsServing, IsServed}
use devvm.Session.Rebind.Restore.{restore-serves}
use devvm.Session.Reconnect.{
  Limits, stops, stopped, unmanaged, vm_not_running, dial_failed, connected, Wake, idles, kicks,
  waited, meanwhile, Retry, came_back, ended, out_of_fuel, back_off, settle_attempt, attempt,
  on_wake, reconnect_from, reconnect,
}
use devvm.Session.Reconnect.Turns.{reconnect_from-still, reconnect_from-ended}

-- No binder is at work, the transport would serve every forward, and the daemon is not idle.
abbrev pub IsReady : Forwarder → Daemon → Type 0
IsReady forward d =
    All (λ f. f.binding ≡ false) d.forwards
    × All (λ f. IsServed forward (job_of f)) d.forwards
    × (idle_now d ≡ false)

-- What comes before the attempt that succeeds: no stop, and no machine that is not devvm's.
abbrev pub Delays : Forwarder → Wake → Type 0
Delays forward idles = Unit {0}
Delays forward kicks = Unit {0}
Delays forward (waited vm_not_running) = Unit {0}
Delays forward (waited dial_failed) = Unit {0}
Delays forward (meanwhile f) = (d : Daemon) → IsReady forward d → IsReady forward (f d)
Delays forward _ = ⊥

-- The daemon that the attempt after the wakes finds.
unfoldable pub daemon_after : List Wake → Daemon → Daemon
daemon_after [] d = d
daemon_after (kicks ∷ ws) d = daemon_after ws (record d { kicked = false })
daemon_after (meanwhile f ∷ ws) d = daemon_after ws (f d)
daemon_after (_ ∷ ws) d = daemon_after ws d

-- What a reconnect brings back of the daemon `d`, at the time `now`.
abbrev pub BringsBack : ℕ → Daemon → Daemon → Type 0
BringsBack now d e =
    (e.state ≡ up)
    × ((g : ℕ) → owners_at g e.forwards ≡ owners_at g (expire_ttl now d).forwards)
    × ((g : ℕ) (f : Fwd) → find g e.forwards ≡ some f → IsServing e.sessions f)

module _ (l : Limits) (now : ℕ) (t : Transport) (forward : Forwarder) (rest : List Wake) where
  abbrev Serves : List Wake → Retry → Daemon → Type 0
  Serves ws r d =
      (e : Daemon) × (reconnect_from l (ws ++ waited (connected t forward now) ∷ rest) r d
        ≡ ended came_back e)
      × BringsBack now (daemon_after ws d) e

  attempt-came_back :
      (r : Retry) (d e : Daemon)
      → restore now t forward d ≡ some (e, true)
      → attempt l (connected t forward now) r d ≡ ended came_back e
  unfolding attempt settle_attempt
  attempt-came_back r d e h =
      ap
        (λ (o : Option (Daemon × Bool)). elim o [
          | none ↦ out_of_fuel
          | some x ↦ settle_attempt l r x
        ])
        h

  served :
      (ws : List Wake) (r : Retry) (d : Daemon)
      → IsReady forward d
      → All (Delays forward) ws
      → Serves ws r d
  unfolding reconnect_from on_wake attempt back_off daemon_after idle_now
  served [] r d k more =
      let (e, back, is_up, own, bound) = restore-serves now t forward d k.0 k.1 in
      (
        e,
        reconnect_from-ended l (waited (connected t forward now)) rest r d
            (attempt-came_back r d e back),
        (is_up, own, bound),
      )
  served (idles ∷ ws) r d k more =
      let (e, back, b) = served ws r d k more.1 in
      let later = ws ++ waited (connected t forward now) ∷ rest in
      (e, reconnect_from-still l idles later r d (rw k.2 refl) ∙ back, b)
  served (stops ∷ ws) r d k more = elim more.0 [ ]
  served (waited stopped ∷ ws) r d k more = elim more.0 [ ]
  served (waited unmanaged ∷ ws) r d k more = elim more.0 [ ]
  served (waited (connected x y z) ∷ ws) r d k more = elim more.0 [ ]
  served (kicks ∷ ws) r d k more = served ws _ (record d { kicked = false }) k more.1
  served (waited vm_not_running ∷ ws) r d k more = served ws _ d k more.1
  served (waited dial_failed ∷ ws) r d k more = served ws _ d k more.1
  served (meanwhile f ∷ ws) r d k more = served ws r (f d) (more.0 d k) more.1

-- A reconnect works: after any looks at the idle rule, kicks, attempts that find no VM or fail to
-- dial, and work of the other goroutines that keeps what follows true, an attempt that connects
-- ends it with success, where no binder is at work, a forward is held or a session is open, and the
-- transport opens a host port for every forward, by its bumps or, if exact, its own. The daemon is
-- up then; every forward that the attempt found and an expired ttl did not drop is still there,
-- with its owners, and each is bound, except those that none but relay sessions hold.
pub reconnect-BringsBack :
    (l : Limits) (now : ℕ) (t : Transport) (forward : Forwarder) (ws rest : List Wake) (d : Daemon)
    → IsReady forward d
    → All (Delays forward) ws
    → (e : Daemon) × (reconnect l (ws ++ waited (connected t forward now) ∷ rest) d
        ≡ ended came_back e)
      × BringsBack now (daemon_after ws d) e
unfolding reconnect
reconnect-BringsBack l now t forward ws rest d k more = served l now t forward rest ws _ d k more
