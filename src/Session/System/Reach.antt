-- ===== src/Session/System/Reach.antt =====
-- Every forward is sound in every state that the daemon reaches.
use devvm.Prelude.{ℕ, Bool, ◌≡◌, refl, List, [], ◌∷◌, Option, none, some, arith, All, subst}
use devvm.Session.Fwd.{Closer}
use devvm.Session.Bind.{Forwarder, Outcome, opened, refused, BindRes, bound, unbound, bind}
use devvm.Session.Bind.Range.{bound_opens}
use devvm.Session.Daemon.{Transport, Carrier, Daemon, expire_ttl, expired}
use devvm.Session.Add.{add_section, AddStep, answered, waiting, claimed}
use devvm.Session.Rebind.{Job}
use devvm.Session.Sessions.{subscribe, unsubscribe}
use devvm.Session.System.Sound.{Sound, settle-Sound}
use devvm.Session.System.Keeps.{
  AllSound, open_session-AllSound, close_session-AllSound, drop_matching-AllSound, down-AllSound,
  detach-AllSound, on_dead-AllSound, remove-AllSound,
}
use devvm.Session.System.Adds.{add_section-AllSound}
use devvm.Session.System.Adds.Bound.{
  BoundOn, adopt-AllSound, bind_slot-AllSound, claim_all-Sound, install-Sound,
}
use devvm.Session.System.{
  Task, adding, rebinding, Sys, Event, opens_session, closes_session, subscribes, unsubscribes,
  adds, removes, downs, expires_ttl, dies, installs, tears_down, comes_up, clears, rebinds_from,
  finishes, gives_up, take_task, stamp, carried_by, job_done, finish_task, give_up, after_add,
  install, come_up, start_batch, finish_taken, abandon, step, run, start,
}

-- What a stamped transport opens is its own.
bind-BoundOn :
    (t : ℕ) (forward : Forwarder) (pref guest : ℕ) (exact : Bool)
    → BoundOn t (bind (some (carried_by t forward)) pref guest exact)
bind-BoundOn t forward pref guest exact =
    go (bind (some (carried_by t forward)) pref guest exact) refl
  where
    stamped : (o : Outcome) (c : Closer) → stamp t o ≡ opened c → c.transport ≡ t
    stamped (opened x) c e = ground arith
    stamped (refused x) c e = cc

    go : (r : BindRes) → bind (some (carried_by t forward)) pref guest exact ≡ r → BoundOn t r
    go (bound h c b) e =
        stamped (forward h guest) c (bound_opens (carried_by t forward) guest pref exact h c b e)
    go (unbound x) e = tt

job_done-AllSound :
    (j : Job) (t : ℕ) (r : BindRes) (d : Daemon)
    → BoundOn t r
    → AllSound d
    → AllSound (job_done j t r d)
unfolding job_done
job_done-AllSound j t (bound h c b) d on k = adopt-AllSound t j.ref h c j.exact d on k
job_done-AllSound j t (unbound e) d on k = settle-Sound d.sessions d.tr j.ref d.forwards k

finish_task-AllSound :
    (t : Task) (forward : Forwarder) (dead : Bool) (d : Daemon)
    → AllSound d
    → AllSound (finish_task t forward dead d)
unfolding finish_task
finish_task-AllSound (adding c) forward dead d k =
    bind_slot-AllSound c dead _ d (bind-BoundOn c.transport forward c.target c.ref.guest c.exact) k
finish_task-AllSound (rebinding j t) forward dead d k =
    job_done-AllSound j t _ d (bind-BoundOn t forward j.host j.ref.guest j.exact) k

module _ (s : Sys) (k : AllSound s.daemon) where
  after_add-AllSound : (r : Daemon × AddStep) → AllSound r.0 → AllSound (after_add r s).daemon
  unfolding after_add
  after_add-AllSound (d, answered a) h = h
  after_add-AllSound (d, waiting i) h = h
  after_add-AllSound (d, claimed c) h = h

  install-AllSound :
      (c : Carrier) (o : Option Transport) → (s.daemon).tr ≡ o → AllSound (install c o s).daemon
  unfolding install
  install-AllSound c (some t) e = k
  install-AllSound c none e =
      install-Sound (s.daemon).sessions _ (s.daemon).forwards
        (subst (λ o. All (Sound (s.daemon).sessions o) (s.daemon).forwards) e k)

  come_up-AllSound : (o : Option Transport) → AllSound (come_up o s.daemon)
  unfolding come_up
  come_up-AllSound none = k
  come_up-AllSound (some t) = k

  start_batch-AllSound :
      (tried : List ℕ) (o : Option Transport) → AllSound (start_batch tried o s).daemon
  unfolding start_batch
  start_batch-AllSound tried none = k
  start_batch-AllSound tried (some t) =
      claim_all-Sound (s.daemon).sessions tried (s.daemon).tr (s.daemon).forwards k

  finish_taken-AllSound :
      (forward : Forwarder) (dead : Bool) (o : Option (Task × List Task))
      → AllSound (finish_taken forward dead o s).daemon
  unfolding finish_taken
  finish_taken-AllSound forward dead none = k
  finish_taken-AllSound forward dead (some (t, rest)) =
      finish_task-AllSound t forward dead s.daemon k

  abandon-AllSound : (o : Option (Task × List Task)) → AllSound (abandon o s).daemon
  unfolding abandon give_up
  abandon-AllSound none = k
  abandon-AllSound (some (adding c, rest)) = k
  abandon-AllSound (some (rebinding j t, rest)) =
      settle-Sound (s.daemon).sessions (s.daemon).tr j.ref (s.daemon).forwards k

  pub step-AllSound : (e : Event) → AllSound (step s e).daemon
  unfolding step subscribe unsubscribe expire_ttl
  step-AllSound (opens_session relay) = open_session-AllSound relay s.daemon k
  step-AllSound (closes_session i) = close_session-AllSound i s.daemon k
  step-AllSound (subscribes x) = k
  step-AllSound (unsubscribes x) = k
  step-AllSound (adds q) =
      after_add-AllSound (add_section q s.daemon) (add_section-AllSound q s.daemon k)
  step-AllSound (removes g own) = remove-AllSound g own s.daemon k
  step-AllSound downs = down-AllSound s.daemon k
  step-AllSound (expires_ttl now) = drop_matching-AllSound (expired now) s.daemon k
  step-AllSound dies = on_dead-AllSound s.daemon k
  step-AllSound (installs c) = install-AllSound c (s.daemon).tr refl
  step-AllSound tears_down = detach-AllSound s.daemon k
  step-AllSound comes_up = come_up-AllSound (s.daemon).tr
  step-AllSound clears = tt
  step-AllSound (rebinds_from tried) = start_batch-AllSound tried (s.daemon).tr
  step-AllSound (finishes n forward dead) = finish_taken-AllSound forward dead (take_task n s.tasks)
  step-AllSound (gives_up n) = abandon-AllSound (take_task n s.tasks)

pub run-AllSound : (s : Sys) (es : List Event) → AllSound s.daemon → AllSound (run s es).daemon
unfolding run
run-AllSound s [] k = k
run-AllSound s (e ∷ es) k = run-AllSound (step s e) es (step-AllSound s k e)

-- After any sequence of critical sections from the daemon's start, in any order: every forward that
-- is bound is carried by the current transport; every connection that owns a forward is a
-- registered session; a forward that a binder works on is not bound; one that nobody owns is still
-- there only while a binder works on it; and no owner is listed twice with a forward.
pub run-start-AllSound : (c : Carrier) (es : List Event) → AllSound (run (start c) es).daemon
unfolding start
run-start-AllSound c es = run-AllSound _ es tt
