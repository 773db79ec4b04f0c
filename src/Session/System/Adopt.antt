-- ===== src/Session/System/Adopt.antt =====
-- `adopt`, the critical section that ends a bind that succeeded.
pub mod Finish
use devvm.Prelude.{
  ℕ, Bool, true, false, not, ◌&&◌, ◌||◌, ◌≡◌, refl, sym, ap, ◌∙◌, subst, List, ◌∷◌, Option, none,
  some, arith, Bool-cases, inl, inr, if◌then◌else◌, if_rule,
}
use devvm.Session.Owner.{delete_owner}
use devvm.Session.Fwd.{Closer, Fwd, finish_binding, is_none, unheld}
use devvm.Session.Table.{Table, find, put, erase, Ref, held}
use devvm.Session.Table.Rules.{find-guest, held-find}
use devvm.Session.Table.Find.{find-put_cases, find-erase-some}
use devvm.Session.Bind.{Forwarder, BindErr, BindRes, bound, unbound, bind}
use devvm.Session.Bind.Range.{bind_exact_port}
use devvm.Session.Daemon.{Daemon, settle, settle_held, is_up}
use devvm.Session.Daemon.Settle.{settled-idle}
use devvm.Session.Add.{Claim, Answer}
use devvm.Session.Add.Binding.{
  adopt, adopt_into, adoptable, same_transport, bind_lost, bind_error, bind_slot,
}
use devvm.Session.Rebind.{Job}
use devvm.Session.System.{Task, adding, rebinding, carried_by, finish_task, job_done}
use devvm.Session.System.Slots.{
  task_ref, task_exact, task_target, Slots, put_idle-Slots, erase-Slots,
}
use devvm.Session.System.Finish.{settle-Slots}
use devvm.Session.System.Quiet.{Calm, put-Calm, erase-Calm}
use devvm.Session.System.Advance.{Advance, Keeps, Calm-Keeps, put-Keeps}

-- A slot found in a settled table was there before, with the same ports.
settle-find :
    (r : Ref) (fs : Table) (g : ℕ) (x : Fwd)
    → find g (settle r fs) ≡ some x
    → (f : Fwd) × (find g fs ≡ some f) × (x.id ≡ f.id) × (x.host ≡ f.host) × (x.exact ≡ f.exact)
unfolding settle
settle-find r fs g x e = go (held r fs) refl e
  where
    go :
        (o : Option Fwd)
        → held r fs ≡ o
        → find g (settle_held o fs) ≡ some x
        → (f : Fwd) × (find g fs ≡ some f) × (x.id ≡ f.id) × (x.host ≡ f.host) × (x.exact ≡ f.exact)
    go none q k = (x, k, refl, refl, refl)
    go (some f) q k = elim (Bool-cases (unheld f)) [
      | inl u ↦ let k' = rw u at k in (x, (find-erase-some g f.guest fs k').1, refl, refl, refl)
      | inr u ↦
          let (found, _) = held-find r fs q in
          let a = find-guest r.guest fs found in
          elim (find-put_cases g (finish_binding f) fs (rw u at k)) [
            | inl (same, at) ↦ (
              f,
              subst (λ n. find n fs ≡ some f) (sym a ∙ sym at) found,
              ap (λ (y : Fwd). y.id) (sym same),
              ap (λ (y : Fwd). y.host) (sym same),
              ap (λ (y : Fwd). y.exact) (sym same),
            )
            | inr (_, old) ↦ (x, old, refl, refl, refl)
          ]
    ]

settle-Keeps : (r : Ref) (fs : Table) → Keeps fs (settle r fs)
settle-Keeps r fs g f x a b i k =
    let (y, found, _, host, exact) = settle-find r fs g x b in
    let e : y ≡ f = cc in
    (host ∙ ap (λ (z : Fwd). z.host) e, exact ∙ ap (λ (z : Fwd). z.exact) e ∙ k)

-- Two changes in a row, where the one in between keeps the object.
Keeps-after_settle :
    (r : Ref) (fs later : Table)
    → Keeps (settle r fs) later
    → ((g : ℕ) (y : Fwd)
        → find g later ≡ some y
        → (x : Fwd) × (find g (settle r fs) ≡ some x) × (y.id ≡ x.id))
    → Keeps fs later
Keeps-after_settle r fs later k back g f y a b i w =
    let (x, there, same) = back g y b in
    let (host, exact) = settle-Keeps r fs g f x a there (sym same ∙ i) w in
    let (host', exact') = k g x y there b same exact in (host' ∙ host, exact')

module _ {fs : Table} {next : ℕ} {ts : List Task} (t : Task) (s : Slots fs next (t ∷ ts)) where
  abbrev settled : Table
  settled = settle (task_ref t) fs

  pub settled-Advance : Advance fs settled next ts
  settled-Advance = record { slots = settle-Slots t s; keeps = settle-Keeps (task_ref t) fs }

  Calm-Advance :
      (later : Table) → Calm settled later → Slots later next ts → Advance fs later next ts
  Calm-Advance later c k = record {
    slots = k;
    keeps =
        Keeps-after_settle (task_ref t) fs later (Calm-Keeps c)
          (λ g y e. let o = c.quiet g y e in (o.before, o.found, o.same.id));
  }

  -- The port of an exact slot is the one that its task asked for.
  port_kept :
      (f : Fwd)
      → held (task_ref t) settled ≡ some f
      → f.exact ≡ true
      → (task_exact t ≡ true) × (task_target t ≡ f.host)
  port_kept f e k =
      let (there, i) = held-find (task_ref t) settled e in
      let (x, found, id, host, exact) = settle-find (task_ref t) fs (task_ref t).guest f there in
      let g = find-guest (task_ref t).guest fs found in
      let (a, b) = (s.pinned (task_ref t).guest x found (sym exact ∙ k)).0 (ground arith) in
      (a, b ∙ sym host)

  adopt_into-Advance :
      (o : Option Fwd) (d : Daemon) (u host : ℕ) (c : Closer)
      → d.forwards ≡ settled
      → held (task_ref t) settled ≡ o
      → (task_exact t ≡ true → host ≡ task_target t)
      → Advance fs (adopt_into (adoptable u o d) host c (task_exact t) d).0.forwards next ts
  unfolding adopt_into
  adopt_into-Advance none d u host c e h port = rw e settled-Advance
  adopt_into-Advance (some f) d u host c e h port =
      let (there, _) = held-find (task_ref t) settled h in
      let at = find-guest (task_ref t).guest settled there in
      let found = subst (λ n. find n settled ≡ some f) (sym at) there in
      elim (Bool-cases (is_none f.closer && same_transport u d.tr)) [
        | inr x ↦ rw x (rw e settled-Advance)
        | inl x ↦ rw x (
            rw e (record {
              slots = put_idle-Slots f _ found idle refl refl idle (settle-Slots t s);
              keeps =
                  Keeps-after_settle (task_ref t) fs _
                    (put-Keeps f _ settled found
                      (λ k. let (a, b) = port_kept f h k in (port a ∙ b, ground arith)))
                    (λ g y q. elim (find-put_cases g _ settled q) [
                      | inl (same, at') ↦ (
                        f,
                        subst (λ n. find n settled ≡ some f) (sym at') found,
                        ap (λ (z : Fwd). z.id) (sym same),
                      )
                      | inr (_, old) ↦ (y, old, refl)
                    ]);
            }))
      ]
    where
      idle : f.binding ≡ false
      idle = (settled-idle (task_ref t) fs h).0

  pub adopt-Advance :
      (d : Daemon) (u host : ℕ) (c : Closer)
      → d.forwards ≡ fs
      → (task_exact t ≡ true → host ≡ task_target t)
      → Advance fs (adopt u (task_ref t) host c (task_exact t) d).0.forwards next ts
  unfolding adopt
  adopt-Advance d u host c e port =
      let same : settle (task_ref t) d.forwards ≡ settled = ap (settle (task_ref t)) e in
      rw same (
        adopt_into-Advance (held (task_ref t) settled) (record d { forwards = settled }) u host c
          refl refl port)
