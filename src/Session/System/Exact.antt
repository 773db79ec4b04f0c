-- ===== src/Session/System/Exact.antt =====
-- One binder for each slot, and exact forwards that keep their port, over any interleaving.
use devvm.Prelude.{
  ℕ, Bool, ◌≡◌, sym, subst, List, [], ◌∷◌, Option, none, some, arith, Option-cases, inl, inr,
}
use devvm.Session.Fwd.{Fwd}
use devvm.Session.Table.{find, IsMap}
use devvm.Session.Bind.{Forwarder}
use devvm.Session.Daemon.{
  Transport, Carrier, Daemon, remove, down, expire_ttl, expired, detach, on_dead, new_daemon,
}
use devvm.Session.Add.{add_section, AddStep, answered, waiting, claimed}
use devvm.Session.Sessions.{open_session, close_session, subscribe, unsubscribe}
use devvm.Session.System.Slots.{Slots}
use devvm.Session.System.Finish.{take-Slots}
use devvm.Session.System.Batch.{batch-Slots, claim_all-Keeps}
use devvm.Session.System.Quiet.{
  Calm, Calm-Slots, close_session-Calm, drop_matching-Calm, down-Calm, detach-Calm, on_dead-Calm,
  remove-Calm,
}
use devvm.Session.System.Advance.{
  Advance, Keeps, Keeps-refl, Calm-Keeps, add_section-Advance, tasks_after,
}
use devvm.Session.System.Adopt.{settled-Advance}
use devvm.Session.System.Adopt.Finish.{finish_task-Advance}
use devvm.Session.System.{
  Task, adding, rebinding, Sys, Event, opens_session, closes_session, subscribes, unsubscribes,
  adds, removes, downs, expires_ttl, dies, installs, tears_down, comes_up, clears, rebinds_from,
  finishes, gives_up, take_task, finish_task, give_up, after_add, install, come_up, start_batch,
  finish_taken, abandon, step, run, start,
}
use devvm.Session.System.Counter.{
  remove-next_fwd, down-next_fwd, finish_task-next_fwd, close_session-next_fwd, expire_ttl-next_fwd,
  on_dead-next_fwd, detach-next_fwd,
}

abbrev pub SysSlots : Sys → Type 0
SysSlots s = Slots (s.daemon).forwards (s.daemon).next_fwd s.tasks

-- The table of `d` moves on to that of `e`, with the tasks `ts`, and nothing new was made.
abbrev Onward : Daemon → Daemon → List Task → Type 0
Onward d e ts = Advance d.forwards e.forwards e.next_fwd ts

onward :
    (d e : Daemon) (ts : List Task)
    → e.next_fwd ≡ d.next_fwd
    → Advance d.forwards e.forwards d.next_fwd ts
    → Onward d e ts
onward d e ts n a = subst (λ k. Advance d.forwards e.forwards k ts) (sym n) a

calm :
    (d e : Daemon) (ts : List Task)
    → e.next_fwd ≡ d.next_fwd
    → Calm d.forwards e.forwards
    → Slots d.forwards d.next_fwd ts
    → Onward d e ts
calm d e ts n c s = onward d e ts n (record { slots = Calm-Slots c s; keeps = Calm-Keeps c })

still :
    (d e : Daemon) (ts : List Task)
    → e.forwards ≡ d.forwards
    → e.next_fwd ≡ d.next_fwd
    → Slots d.forwards d.next_fwd ts
    → Onward d e ts
still d e ts f n s = onward d e ts n (
    subst (λ xs. Advance d.forwards xs d.next_fwd ts) (sym f)
      (record { slots = s; keeps = Keeps-refl d.forwards }))

open_session_still :
    (relay : Bool) (d : Daemon)
    → ((open_session relay d).0.forwards ≡ d.forwards)
      × ((open_session relay d).0.next_fwd ≡ d.next_fwd)
unfolding open_session
open_session_still relay d = ground arith

expire_ttl-Calm :
    (now : ℕ) (d : Daemon) → IsMap d.forwards → Calm d.forwards (expire_ttl now d).forwards
unfolding expire_ttl
expire_ttl-Calm now d m = drop_matching-Calm d m (expired now)

find_nil : (g : ℕ) {x : Fwd} → find g [] ≡ some x → ⊥
unfolding find
find_nil g e = cc

start-Slots : {n : ℕ} → Slots [] n []
start-Slots = record {
  unique = tt;
  young = λ g f e. absurd (find_nil g e);
  young_tasks = tt;
  one = λ g f e. absurd (find_nil g e);
  pinned = λ g f e. absurd (find_nil g e);
}

module _ (s : Sys) (k : SysSlots s) where
  abbrev Next : Sys → Type 0
  Next s' = Advance (s.daemon).forwards (s'.daemon).forwards (s'.daemon).next_fwd s'.tasks

  same_sys : Next s
  same_sys = record { slots = k; keeps = Keeps-refl (s.daemon).forwards }

  after_add-Next :
      (r : Daemon × AddStep)
      → Advance (s.daemon).forwards r.0.forwards r.0.next_fwd (tasks_after r.1 s.tasks)
      → Next (after_add r s)
  unfolding after_add
  after_add-Next (d, answered a) h = h
  after_add-Next (d, waiting i) h = h
  after_add-Next (d, claimed c) h = h

  install-Next : (c : Carrier) (o : Option Transport) → Next (install c o s)
  unfolding install
  install-Next c none = same_sys
  install-Next c (some t) = same_sys

  come_up-Next : (o : Option Transport) → Onward s.daemon (come_up o s.daemon) s.tasks
  unfolding come_up
  come_up-Next none = same_sys
  come_up-Next (some t) = same_sys

  start_batch-Next : (tried : List ℕ) (o : Option Transport) → Next (start_batch tried o s)
  unfolding start_batch
  start_batch-Next tried none = same_sys
  start_batch-Next tried (some t) = record {
    slots = batch-Slots (s.daemon).sessions tried t.id k;
    keeps = claim_all-Keeps (s.daemon).sessions tried (s.daemon).forwards;
  }

  finish_taken-Next :
      (n : ℕ) (forward : Forwarder) (dead : Bool)
      → Next (finish_taken forward dead (take_task n s.tasks) s)
  unfolding finish_taken
  finish_taken-Next n forward dead = elim (Option-cases (take_task n s.tasks)) [
    | inl e ↦ rw (e, finish_taken) same_sys
    | inr ((t, rest), e) ↦
        rw (e, finish_taken)
          (onward s.daemon (finish_task t forward dead s.daemon) rest
            (finish_task-next_fwd t forward dead s.daemon)
            (finish_task-Advance t forward dead s.daemon (take-Slots n s.tasks t rest e k)))
  ]

  give_up-Next :
      (t : Task) (rest : List Task)
      → Slots (s.daemon).forwards (s.daemon).next_fwd (t ∷ rest)
      → Next (give_up t rest s)
  unfolding give_up
  give_up-Next (adding c) rest h = same_sys
  give_up-Next (rebinding j u) rest h = settled-Advance (rebinding j u) h

  abandon-Next : (n : ℕ) → Next (abandon (take_task n s.tasks) s)
  unfolding abandon
  abandon-Next n = elim (Option-cases (take_task n s.tasks)) [
    | inl e ↦ rw (e, abandon) same_sys
    | inr ((t, rest), e) ↦ rw (e, abandon) (give_up-Next t rest (take-Slots n s.tasks t rest e k))
  ]

  clears-Next : Slots [] (s.daemon).next_fwd s.tasks
  clears-Next = record {
    unique = tt;
    young = λ g f e. absurd (find_nil g e);
    young_tasks = k.young_tasks;
    one = λ g f e. absurd (find_nil g e);
    pinned = λ g f e. absurd (find_nil g e);
  }

  step-Next : (e : Event) → Next (step s e)
  unfolding step subscribe unsubscribe
  step-Next (opens_session relay) =
      let (f, n) = open_session_still relay s.daemon in
      still s.daemon (open_session relay s.daemon).0 s.tasks f n k
  step-Next (closes_session i) =
      calm s.daemon (close_session i s.daemon) s.tasks (close_session-next_fwd i s.daemon)
        (close_session-Calm s.daemon k.unique i) k
  step-Next (subscribes x) = same_sys
  step-Next (unsubscribes x) = same_sys
  step-Next (adds q) =
      after_add-Next (add_section q s.daemon) (add_section-Advance q s.daemon s.tasks k)
  step-Next (removes g own) =
      calm s.daemon (remove g own s.daemon).0 s.tasks (remove-next_fwd g own s.daemon)
        (remove-Calm s.daemon k.unique g own) k
  step-Next downs =
      calm s.daemon (down s.daemon).0 s.tasks (down-next_fwd s.daemon) (down-Calm s.daemon k.unique)
        k
  step-Next (expires_ttl now) =
      calm s.daemon (expire_ttl now s.daemon) s.tasks (expire_ttl-next_fwd now s.daemon)
        (expire_ttl-Calm now s.daemon k.unique) k
  step-Next dies =
      calm s.daemon (on_dead s.daemon) s.tasks (on_dead-next_fwd s.daemon)
        (on_dead-Calm s.daemon k.unique) k
  step-Next (installs c) = install-Next c (s.daemon).tr
  step-Next tears_down =
      calm s.daemon (detach s.daemon) s.tasks (detach-next_fwd s.daemon)
        (detach-Calm s.daemon k.unique) k
  step-Next comes_up = come_up-Next (s.daemon).tr
  step-Next clears = record { slots = clears-Next; keeps = λ g f x a b. absurd (find_nil g b) }
  step-Next (rebinds_from tried) = start_batch-Next tried (s.daemon).tr
  step-Next (finishes n forward dead) = finish_taken-Next n forward dead
  step-Next (gives_up n) = abandon-Next n

pub run-SysSlots : (s : Sys) (es : List Event) → SysSlots s → SysSlots (run s es)
unfolding run
run-SysSlots s [] k = k
run-SysSlots s (e ∷ es) k = run-SysSlots (step s e) es (step-Next s k e).slots

-- After any sequence of critical sections from the daemon's start: no two records stand under one
-- guest port; a slot that is being bound has exactly one binder in flight, and no other slot has
-- any; and the binder of an exact forward asks for the forward's own port, exactly.
pub run-start-SysSlots : (c : Carrier) (es : List Event) → SysSlots (run (start c) es)
unfolding start new_daemon
run-start-SysSlots c es = run-SysSlots _ es start-Slots

-- An exact forward never moves: after any further critical section, the same object under its guest
-- port has the same host port, and is still exact.
pub exact_never_moves :
    (c : Carrier) (es : List Event) (e : Event)
    → Keeps ((run (start c) es).daemon).forwards ((step (run (start c) es) e).daemon).forwards
exact_never_moves c es e = (step-Next (run (start c) es) (run-start-SysSlots c es) e).keeps
