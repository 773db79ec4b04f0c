-- ===== src/Session/System.antt =====
-- The daemon with what runs beside it: any number of requests, sessions and binders, whose
-- critical sections may come in any order. An event is one critical section of
-- internal/session/daemon.go or daemon_session.go; a binder between two of its sections is a task.
-- More orders are allowed than the source has: a task of a batch may finish in any order.
pub mod Sound
pub mod Keeps
pub mod Adds
pub mod Reach
pub mod Slots
pub mod Finish
pub mod Batch
pub mod Quiet
pub mod Advance
pub mod Adopt
pub mod Exact
pub mod Counter
use devvm.Prelude.{
  ℕ, zero, suc, ◌+◌, Bool, true, false, not, ◌&&◌, ◌||◌, List, [], ◌∷◌, ◌++◌, map, Option, none,
  some, ltb, leb, ◌==◌, if◌then◌else◌, is_empty, keep,
}
use devvm.Session.Owner.{Owner}
use devvm.Session.Fwd.{Closer, Fwd}
use devvm.Session.Table.{Table}
use devvm.Session.Bind.{Forwarder, Outcome, opened, refused, BindRes, bound, unbound, bind}
use devvm.Session.Daemon.{
  Transport, Carrier, State, up, reconnecting, Sess, Daemon, new_daemon, settle, expire_ttl, detach,
  remove, down, on_dead,
}
use devvm.Session.Add.{AddReq, AddStep, answered, waiting, claimed, Claim, add_section}
use devvm.Session.Add.Binding.{bind_slot, adopt}
use devvm.Session.Rebind.{Job, job_of, claim_all, batch}
use devvm.Session.Sessions.{open_session, close_session, subscribe, unsubscribe}

-- A binder in flight: an add's, or the bind of a job of `rebindPending` on a transport.
pub data Task : Type 0 where
  adding : Claim → Task
  rebinding : Job → ℕ → Task

pub record Sys : Type 0 where
  pub daemon : Daemon
  pub tasks : List Task
  pub next_tr : ℕ

pub data Event : Type 0 where
  opens_session : Bool → Event
  closes_session : ℕ → Event
  subscribes : Sess → Event
  unsubscribes : Sess → Event
  adds : AddReq → Event
  removes : ℕ → Owner → Event
  downs : Event
  expires_ttl : ℕ → Event
  dies : Event
  installs : Carrier → Event
  tears_down : Event
  comes_up : Event
  clears : Event
  rebinds_from : List ℕ → Event
  finishes : ℕ → Forwarder → Bool → Event
  gives_up : ℕ → Event

-- The `k`-th task, and the others.
unfoldable pub take_task : ℕ → List Task → Option (Task × List Task)
take_task k [] = none
take_task zero (t ∷ ts) = some (t, ts)
take_task (suc k) (t ∷ ts) = elim (take_task k ts) [
  | none ↦ none
  | some (u, rest) ↦ some (u, t ∷ rest)
]

-- A transport's forwards are its own.
abbrev pub stamp : ℕ → Outcome → Outcome
stamp t (opened c) = opened (record c { transport = t })
stamp t (refused e) = refused e

abbrev pub carried_by : ℕ → Forwarder → Forwarder
carried_by t forward h g = stamp t (forward h g)

unfoldable pub job_done : Job → ℕ → BindRes → Daemon → Daemon
job_done j t (bound host c b) d = (adopt t j.ref host c j.exact d).0
job_done j t (unbound e) d = record d { forwards = settle j.ref d.forwards }

-- The end of a task: its bind, and the critical section after it.
unfoldable pub finish_task : Task → Forwarder → Bool → Daemon → Daemon
unfolding job_done
finish_task (adding c) forward dead d =
    (bind_slot c dead (bind (some (carried_by c.transport forward)) c.target c.ref.guest c.exact)
      d).0
finish_task (rebinding j t) forward dead d =
    job_done j t (bind (some (carried_by t forward)) j.host j.ref.guest j.exact) d

-- A job that a failed batch leaves. An add always ends by its own bind.
unfoldable pub give_up : Task → List Task → Sys → Sys
give_up (adding c) rest s = s
give_up (rebinding j t) rest s =
    let d = s.daemon in
    record s { daemon = record d { forwards = settle j.ref d.forwards }; tasks = rest }

unfoldable pub after_add : Daemon × AddStep → Sys → Sys
after_add (d, answered a) s = record s { daemon = d }
after_add (d, waiting i) s = record s { daemon = d }
after_add (d, claimed c) s = record s { daemon = d; tasks = adding c ∷ s.tasks }

-- `restore` installs the transport it was given where there is none.
unfoldable pub install : Carrier → Option Transport → Sys → Sys
install c (some tr) s = s
install c none s =
    let d = s.daemon in
    record s {
      daemon = record d { tr = some (record { id = s.next_tr; carrier = c }) };
      next_tr = suc s.next_tr;
    }

unfoldable pub come_up : Option Transport → Daemon → Daemon
come_up none d = d
come_up (some tr) d = record d { state = up }

-- The first critical section of a batch of `rebindPending`.
unfoldable pub start_batch : List ℕ → Option Transport → Sys → Sys
start_batch tried none s = s
start_batch tried (some tr) s =
    let d = s.daemon in
    record s {
      daemon = record d { forwards = claim_all d.sessions tried d.forwards };
      tasks = map (λ j. rebinding j tr.id) (batch d.sessions tried d.forwards) ++ s.tasks;
    }

unfoldable pub finish_taken : Forwarder → Bool → Option (Task × List Task) → Sys → Sys
unfolding finish_task
finish_taken forward dead none s = s
finish_taken forward dead (some (t, rest)) s = record s {
  daemon = finish_task t forward dead s.daemon;
  tasks = rest;
}

unfoldable pub abandon : Option (Task × List Task) → Sys → Sys
unfolding give_up
abandon none s = s
abandon (some (t, rest)) s = give_up t rest s

abbrev pub with_daemon : Daemon → Sys → Sys
with_daemon d s = record s { daemon = d }

unfoldable pub step : Sys → Event → Sys
unfolding after_add install come_up start_batch finish_taken abandon
step s (opens_session relay) = with_daemon (open_session relay s.daemon).0 s
step s (closes_session i) = with_daemon (close_session i s.daemon) s
step s (subscribes x) = with_daemon (subscribe x s.daemon) s
step s (unsubscribes x) = with_daemon (unsubscribe x s.daemon) s
step s (adds q) = after_add (add_section q s.daemon) s
step s (removes g own) = with_daemon (remove g own s.daemon).0 s
step s downs = with_daemon (down s.daemon).0 s
step s (expires_ttl now) = with_daemon (expire_ttl now s.daemon) s
step s dies = with_daemon (on_dead s.daemon) s
step s (installs c) = install c (s.daemon).tr s
step s tears_down = with_daemon (detach s.daemon) s
step s comes_up = with_daemon (come_up (s.daemon).tr s.daemon) s
step s clears = let d = s.daemon in with_daemon (record d { forwards = [] }) s
step s (rebinds_from tried) = start_batch tried (s.daemon).tr s
step s (finishes k forward dead) = finish_taken forward dead (take_task k s.tasks) s
step s (gives_up k) = abandon (take_task k s.tasks) s

unfoldable pub run : Sys → List Event → Sys
run s [] = s
run s (e ∷ es) = run (step s e) es

-- The daemon as it starts, on its first transport.
unfoldable pub start : Carrier → Sys
unfolding new_daemon
start c = record { daemon = new_daemon (record { id = 0; carrier = c }); tasks = []; next_tr = 1 }
