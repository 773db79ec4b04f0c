-- ===== src/Session/Ledger/Steps.antt =====
-- Every event moves the ledger as it may.
use devvm.Prelude.{
  ℕ, Bool, ◌≡◌, ◌⊎◌, inl, inr, refl, ◌∙◌, ap, List, [], Option, none, some, ◌==◌, ◌&&◌,
  if◌then◌else◌, if_rule, Bool-cases,
}
use devvm.Session.Owner.{Owner, same}
use devvm.Session.Table.{IsMap, find}
use devvm.Session.Bind.{Forwarder, BindRes, bound, unbound, bind}
use devvm.Session.Daemon.{Sess, Daemon, detach, detach_all, Carrier, Transport, remove}
use devvm.Session.Add.{AddReq, AddStep, answered, waiting, claimed, add_section}
use devvm.Session.Rebind.{Job}
use devvm.Session.System.{
  Sys, Event, Task, adding, rebinding, take_task, opens_session, closes_session, subscribes,
  unsubscribes, adds, removes, downs, expires_ttl, dies, installs, tears_down, comes_up, clears,
  rebinds_from, finishes, gives_up, step, run, start, after_add, install, come_up, start_batch,
  finish_taken, finish_task, job_done, abandon, give_up, carried_by,
}
use devvm.Session.System.Exact.{run-start-SysSlots}
use devvm.Session.Sessions.{open_session, subscribe, unsubscribe}
use devvm.Session.Holding.{
  holding, close_session-holding, down-holding, on_dead-holding, holding-detach_all,
}
use devvm.Session.Holding.Remove.{remove-holding}
use devvm.Session.Ledger.{Moves, IsWithdrawnTask}
use devvm.Session.Ledger.Grants.{add_section-Granted}
use devvm.Session.Ledger.Sections.{
  settle-holding, adopt-holding, bind_slot-holding, claim_all-holding,
}
use devvm.Session.Ledger.Removals.{expire_ttl-holding, remove-other, remove-taken}
use devvm.Session.System.Keeps.{AllSound}
use devvm.Session.System.Reach.{run-start-AllSound}

-- The hold of a guest port by an owner, in the system.
abbrev pub hold : ℕ → Owner → Sys → Option ℕ
hold g o s = holding g o (s.daemon).forwards

hold-after_add :
    (g : ℕ) (o : Owner) (r : Daemon × AddStep) (s : Sys)
    → hold g o (after_add r s) ≡ holding g o r.0.forwards
unfolding after_add
hold-after_add g o (d, answered a) s = refl
hold-after_add g o (d, waiting i) s = refl
hold-after_add g o (d, claimed c) s = refl

hold-install :
    (g : ℕ) (o : Owner) (c : Carrier) (t : Option Transport) (s : Sys)
    → hold g o (install c t s) ≡ hold g o s
unfolding install
hold-install g o c none s = refl
hold-install g o c (some t) s = refl

hold-start_batch :
    (g : ℕ) (o : Owner) (tried : List ℕ) (t : Option Transport) (s : Sys)
    → hold g o (start_batch tried t s) ≡ hold g o s
unfolding start_batch
hold-start_batch g o tried none s = refl
hold-start_batch g o tried (some t) s =
    claim_all-holding g o (s.daemon).sessions tried (s.daemon).forwards

holding-come_up :
    (g : ℕ) (o : Owner) (t : Option Transport) (d : Daemon)
    → holding g o (come_up t d).forwards ≡ holding g o d.forwards
unfolding come_up
holding-come_up g o none d = refl
holding-come_up g o (some t) d = refl

holding-job_done :
    (g : ℕ) (o : Owner) (j : Job) (t : ℕ) (r : BindRes) (d : Daemon)
    → holding g o (job_done j t r d).forwards ≡ holding g o d.forwards
unfolding job_done
holding-job_done g o j t (bound h c b) d = adopt-holding g o t j.ref h c j.exact d
holding-job_done g o j t (unbound e) d = settle-holding g o j.ref d.forwards

holding-finish_task :
    (g : ℕ) (o : Owner) (t : Task) (forward : Forwarder) (dead : Bool) (d : Daemon)
    → AllSound d
    → (holding g o (finish_task t forward dead d).forwards ≡ holding g o d.forwards)
      ⊎ (IsWithdrawnTask t g o × (holding g o (finish_task t forward dead d).forwards ≡ none))
unfolding finish_task
holding-finish_task g o (adding c) forward dead d u =
    bind_slot-holding c dead
      (bind (some (carried_by c.transport forward)) c.target c.ref.guest c.exact) d g o u
holding-finish_task g o (rebinding j t) forward dead d u =
    inl (holding-job_done g o j t (bind (some (carried_by t forward)) j.host j.ref.guest j.exact) d)

hold-finish_taken :
    (g : ℕ) (o : Owner) (k : ℕ) (forward : Forwarder) (dead : Bool) (x : Option (Task × List Task))
    (s : Sys)
    → take_task k s.tasks ≡ x
    → AllSound s.daemon
    → Moves s (finishes k forward dead) g o (hold g o s) (hold g o (finish_taken forward dead x s))
unfolding finish_taken Moves
hold-finish_taken g o k forward dead none s e u = inl refl
hold-finish_taken g o k forward dead (some (t, rest)) s e u =
    elim (holding-finish_task g o t forward dead s.daemon u) [
      | inl same' ↦ inl same'
      | inr (w, gone) ↦ inr (t, rest, e, w, gone)
    ]

hold-abandon :
    (g : ℕ) (o : Owner) (x : Option (Task × List Task)) (s : Sys)
    → hold g o (abandon x s) ≡ hold g o s
unfolding abandon give_up
hold-abandon g o none s = refl
hold-abandon g o (some (adding c, rest)) s = refl
hold-abandon g o (some (rebinding j t, rest)) s = settle-holding g o j.ref (s.daemon).forwards

remove-Moves :
    (guest : ℕ) (own : Owner) (g : ℕ) (o : Owner) (d : Daemon)
    → AllSound d
    → holding g o (remove guest own d).0.forwards
      ≡ (if guest == g && same own o then none else holding g o d.forwards)
remove-Moves guest own g o d u = elim (Bool-cases (guest == g)) [
  | inr miss ↦ rw miss (remove-other guest g own o d miss)
  | inl hit ↦ elim (Bool-cases (same own o)) [
    | inr apart ↦ rw (hit, apart) (remove-holding guest g own o d apart)
    | inl k ↦ rw (hit, k) (remove-taken guest g own o d hit k u)
  ]
]

adds-Moves :
    (q : AddReq) (g : ℕ) (o : Owner) (s : Sys)
    → Moves s (adds q) g o (hold g o s) (hold g o (after_add (add_section q s.daemon) s))
unfolding Moves
adds-Moves q g o s =
    let after = hold-after_add g o (add_section q s.daemon) s in
    elim (add_section-Granted q s.daemon g o) [
      | inl k ↦ inl (after ∙ k)
      | inr (at, own, k) ↦ inr (at, own, after ∙ k)
    ]

holding-nil : (g : ℕ) (o : Owner) → holding g o [] ≡ none
unfolding holding find
holding-nil g o = refl

step-Moves :
    (s : Sys) (e : Event) (g : ℕ) (o : Owner)
    → IsMap (s.daemon).forwards
    → AllSound s.daemon
    → Moves s e g o (hold g o s) (hold g o (step s e))
unfolding step Moves open_session subscribe unsubscribe detach detach_all
step-Moves s (opens_session relay) g o u k = ap (holding g o) (
    if_rule (λ (r : Daemon × Option (Sess × Bool)). r.0.forwards ≡ (s.daemon).forwards) _
      (λ e. refl) (λ e. refl))
step-Moves s (closes_session i) g o u k = close_session-holding i g o s.daemon u
step-Moves s (subscribes x) g o u k = refl
step-Moves s (unsubscribes x) g o u k = refl
step-Moves s (adds q) g o u k = adds-Moves q g o s
step-Moves s (removes guest own) g o u k = remove-Moves guest own g o s.daemon k
step-Moves s downs g o u k = down-holding g o s.daemon u
step-Moves s (expires_ttl now) g o u k = expire_ttl-holding now s.daemon g o u k
step-Moves s dies g o u k = on_dead-holding g o s.daemon u
step-Moves s (installs c) g o u k = hold-install g o c (s.daemon).tr s
step-Moves s tears_down g o u k = holding-detach_all g o (s.daemon).forwards
step-Moves s comes_up g o u k = holding-come_up g o (s.daemon).tr s.daemon
step-Moves s clears g o u k = holding-nil g o
step-Moves s (rebinds_from tried) g o u k = hold-start_batch g o tried (s.daemon).tr s
step-Moves s (finishes k forward dead) g o u sound =
    hold-finish_taken g o k forward dead (take_task k s.tasks) s refl sound
step-Moves s (gives_up k) g o u sound = hold-abandon g o (take_task k s.tasks) s

-- The daemon keeps a ledger of holds, guest port and owner to expiry. After any sequence of
-- critical sections from its start, each further one changes a hold only as the ledger allows: an
-- add grants its own hold or changes nothing, never shortening an expiry; a removal takes the hold
-- it names; a close, a `down` and a death take the holds of that connection, of the conf, and of
-- relay sessions; an expiry takes the ttls that are over; each of these takes them all, and leaves
-- every other hold as it was; the end of an add takes at most one hold, its own where it had newly
-- made it; and binding, re-binding, adoption, detaching and giving up change no hold.
pub run-Moves :
    (c : Carrier) (es : List Event) (e : Event) (g : ℕ) (o : Owner)
    → let s = run (start c) es in Moves s e g o (hold g o s) (hold g o (step s e))
run-Moves c es e g o =
    step-Moves (run (start c) es) e g o (run-start-SysSlots c es).unique (run-start-AllSound c es)
