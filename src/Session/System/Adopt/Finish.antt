-- ===== src/Session/System/Adopt/Finish.antt =====
-- The critical sections that end a task: `bindSlot` after its bind, and the jobs of a batch.
use devvm.Prelude.{
  ℕ, Bool, true, false, not, ◌&&◌, ◌||◌, ◌≡◌, refl, sym, ap, subst, List, ◌∷◌, Option, none, some,
  if◌then◌else◌, if_rule,
}
use devvm.Session.Owner.{delete_owner}
use devvm.Session.Fwd.{Closer, Fwd, is_none, unheld}
use devvm.Session.Table.{Table, find, put, erase, held}
use devvm.Session.Table.Rules.{find-guest, held-find}
use devvm.Session.Bind.{Forwarder, BindErr, BindRes, bound, unbound, bind}
use devvm.Session.Bind.Range.{bind_exact_port}
use devvm.Session.Daemon.{Daemon, settle, is_up}
use devvm.Session.Daemon.Settle.{settled-idle}
use devvm.Session.Add.{Claim, Answer}
use devvm.Session.Add.Binding.{same_transport, bind_lost, bind_error, bind_slot}
use devvm.Session.Rebind.{Job}
use devvm.Session.System.{Task, adding, rebinding, carried_by, finish_task, job_done}
use devvm.Session.System.Slots.{Slots, put_idle-Slots, erase-Slots}
use devvm.Session.System.Finish.{settle-Slots}
use devvm.Session.System.Quiet.{put-Calm, erase-Calm}
use devvm.Session.System.Advance.{Advance}
use devvm.Session.System.Adopt.{settled-Advance, adopt-Advance, Calm-Advance}

module _ {fs : Table} {next : ℕ} {ts : List Task} (c : Claim)
    (s : Slots fs next (adding c ∷ ts)) where
  bind_lost-Advance :
      (dead : Bool) (e : BindErr) (o : Option Fwd) (d : Daemon)
      → d.forwards ≡ settle c.ref fs
      → held c.ref (settle c.ref fs) ≡ o
      → Advance fs (bind_lost c dead e o d).0.forwards next ts
  unfolding bind_lost
  bind_lost-Advance dead e none d q h = rw q (settled-Advance (adding c) s)
  bind_lost-Advance dead e (some f) d q h =
      let after = settled-Advance (adding c) s in
      let stay : Advance fs d.forwards next ts = rw q after in
      if_rule (λ (r : Daemon × Answer). Advance fs r.0.forwards next ts)
        (is_none f.closer && (not (same_transport c.transport d.tr) || not (is_up d.state) || dead))
        (λ x. stay)
        (λ x.
          if_rule (λ (r : Daemon × Answer). Advance fs r.0.forwards next ts)
            (is_none f.closer && c.added) (λ y. dropped) (λ y. stay))
    where
      g : Fwd
      g = record f { owners = delete_owner c.own f.owners }

      later : Table → Type 0
      later xs = Advance fs xs next ts

      found : find f.guest (settle c.ref fs) ≡ some f
      found =
          let (there, _) = held-find c.ref (settle c.ref fs) h in
          subst (λ n. find n (settle c.ref fs) ≡ some f)
            (sym (find-guest c.ref.guest (settle c.ref fs) there)) there

      idle : f.binding ≡ false
      idle = (settled-idle c.ref fs h).0

      dropped : Advance fs (if unheld g then erase f.guest d.forwards else put g d.forwards) next ts
      dropped =
          let slots = settle-Slots (adding c) s in
          rw q (
            if_rule later (unheld g)
              (λ x.
                Calm-Advance (adding c) s _ (erase-Calm f.guest (settle c.ref fs) slots.unique)
                  (erase-Slots f.guest slots))
              (λ x.
                Calm-Advance (adding c) s _
                  (put-Calm f g (settle c.ref fs) slots.unique found
                    (record { id = refl; host = refl; guest = refl; exact = refl; binding = refl }))
                  (put_idle-Slots f g found idle refl refl idle slots)))

  bind_slot-Advance :
      (dead : Bool) (r : BindRes) (d : Daemon)
      → d.forwards ≡ fs
      → ((h : ℕ) (x : Closer) (b : Bool) → r ≡ bound h x b → c.exact ≡ true → h ≡ c.target)
      → Advance fs (bind_slot c dead r d).0.forwards next ts
  unfolding bind_slot bind_error
  bind_slot-Advance dead (unbound e) d q port =
      let same : settle c.ref d.forwards ≡ settle c.ref fs = ap (settle c.ref) q in
      bind_lost-Advance dead e (held c.ref (settle c.ref d.forwards))
        (record d { forwards = settle c.ref d.forwards }) same (ap (held c.ref) (sym same))
  bind_slot-Advance dead (bound h x b) d q port =
      adopt-Advance (adding c) s d c.transport h x q (port h x b refl)

-- An exact bind that succeeds got the port that it asked for.
exact_port :
    (forward : Forwarder) (pref guest : ℕ) (exact : Bool) (h : ℕ) (x : Closer) (b : Bool)
    → bind (some forward) pref guest exact ≡ bound h x b
    → exact ≡ true
    → h ≡ pref
exact_port forward pref guest true h x b e k = ((bind_exact_port forward guest pref h x b).0 e).0
exact_port forward pref guest false h x b e k = cc

job_done-Advance :
    {fs : Table} {next : ℕ} {ts : List Task} (j : Job) (u : ℕ) (r : BindRes) (d : Daemon)
    → Slots fs next (rebinding j u ∷ ts)
    → d.forwards ≡ fs
    → ((h : ℕ) (x : Closer) (b : Bool) → r ≡ bound h x b → j.exact ≡ true → h ≡ j.host)
    → Advance fs (job_done j u r d).forwards next ts
unfolding job_done
job_done-Advance j u (unbound e) d s q port =
    rw (ap (settle j.ref) q) (settled-Advance (rebinding j u) s)
job_done-Advance j u (bound h x b) d s q port =
    adopt-Advance (rebinding j u) s d u h x q (port h x b refl)

pub finish_task-Advance :
    {next : ℕ} {ts : List Task} (t : Task) (forward : Forwarder) (dead : Bool) (d : Daemon)
    → Slots d.forwards next (t ∷ ts)
    → Advance d.forwards (finish_task t forward dead d).forwards next ts
unfolding finish_task
finish_task-Advance (adding c) forward dead d s =
    bind_slot-Advance c s dead _ d refl
      (λ h x b. exact_port (carried_by c.transport forward) c.target c.ref.guest c.exact h x b)
finish_task-Advance (rebinding j u) forward dead d s =
    job_done-Advance j u _ d s refl
      (λ h x b. exact_port (carried_by u forward) j.host j.ref.guest j.exact h x b)
