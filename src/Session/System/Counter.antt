-- ===== src/Session/System/Counter.antt =====
-- The counter of forwards' identities moves only where a forward is made.
use devvm.Prelude.{ℕ, Bool, ◌≡◌, refl, Option, none, some, arith}
use devvm.Session.Owner.{Owner}
use devvm.Session.Fwd.{Fwd, Closer}
use devvm.Session.Table.{Ref, held}
use devvm.Session.Bind.{Forwarder, BindErr, BindRes, bound, unbound, bind}
use devvm.Session.Daemon.{Daemon, settle, remove, down, expire_ttl, detach, on_dead}
use devvm.Session.Add.{Claim}
use devvm.Session.Add.Binding.{adopt, adopt_into, adoptable, bind_lost, bind_error, bind_slot}
use devvm.Session.Sessions.{close_session}
use devvm.Session.System.{Task, adding, rebinding, carried_by, job_done, finish_task}

pub remove-next_fwd : (g : ℕ) (own : Owner) (d : Daemon) → (remove g own d).0.next_fwd ≡ d.next_fwd
unfolding remove
remove-next_fwd g own d = ground arith

pub down-next_fwd : (d : Daemon) → (down d).0.next_fwd ≡ d.next_fwd
unfolding down
down-next_fwd d = ground arith

pub adopt-next_fwd :
    (t : ℕ) (r : Ref) (h : ℕ) (c : Closer) (exact : Bool) (d : Daemon)
    → (adopt t r h c exact d).0.next_fwd ≡ d.next_fwd
unfolding adopt
adopt-next_fwd t r h c exact d =
    go (adoptable t (held r (settle r d.forwards)) (record d { forwards = settle r d.forwards }))
  where
    go :
        (o : Option Fwd)
        → (adopt_into o h c exact (record d { forwards = settle r d.forwards })).0.next_fwd
          ≡ d.next_fwd
    go none = refl
    go (some f) = refl

pub bind_lost-next_fwd :
    (c : Claim) (dead : Bool) (e : BindErr) (o : Option Fwd) (d : Daemon)
    → (bind_lost c dead e o d).0.next_fwd ≡ d.next_fwd
unfolding bind_lost
bind_lost-next_fwd c dead e none d = refl
bind_lost-next_fwd c dead e (some f) d = ground arith

pub bind_slot-next_fwd :
    (c : Claim) (dead : Bool) (r : BindRes) (d : Daemon)
    → (bind_slot c dead r d).0.next_fwd ≡ d.next_fwd
unfolding bind_slot bind_error
bind_slot-next_fwd c dead (bound h x b) d = adopt-next_fwd c.transport c.ref h x c.exact d
bind_slot-next_fwd c dead (unbound e) d =
    bind_lost-next_fwd c dead e (held c.ref (settle c.ref d.forwards))
      (record d { forwards = settle c.ref d.forwards })

pub finish_task-next_fwd :
    (t : Task) (forward : Forwarder) (dead : Bool) (d : Daemon)
    → (finish_task t forward dead d).next_fwd ≡ d.next_fwd
unfolding finish_task
finish_task-next_fwd (adding c) forward dead d = bind_slot-next_fwd c dead _ d
finish_task-next_fwd (rebinding j u) forward dead d =
    go (bind (some (carried_by u forward)) j.host j.ref.guest j.exact)
  where
    go : (r : BindRes) → (job_done j u r d).next_fwd ≡ d.next_fwd
    go (bound h x b) = adopt-next_fwd u j.ref h x j.exact d
    go (unbound e) = refl

pub close_session-next_fwd : (i : ℕ) (d : Daemon) → (close_session i d).next_fwd ≡ d.next_fwd
unfolding close_session
close_session-next_fwd i d = refl

pub expire_ttl-next_fwd : (now : ℕ) (d : Daemon) → (expire_ttl now d).next_fwd ≡ d.next_fwd
unfolding expire_ttl
expire_ttl-next_fwd now d = refl

pub on_dead-next_fwd : (d : Daemon) → (on_dead d).next_fwd ≡ d.next_fwd
unfolding on_dead
on_dead-next_fwd d = refl

pub detach-next_fwd : (d : Daemon) → (detach d).next_fwd ≡ d.next_fwd
unfolding detach
detach-next_fwd d = refl
