-- ===== src/Session/System/Advance.antt =====
-- The critical sections of an add: the slots keep their one binder, and an exact forward its port.
use devvm.Prelude.{
  ℕ, suc, true, false, not, ◌&&◌, ◌||◌, ◌≡◌, refl, sym, ap, ◌∙◌, subst, List, ◌∷◌, Option, none,
  some, arith, inl, inr, ◌==◌, if_rule,
}
use devvm.Session.Owner.{add_owner}
use devvm.Session.Fwd.{Closer, Fwd, start_binding, new_fwd}
use devvm.Session.Table.{Table, find, put}
use devvm.Session.Table.Rules.{find-guest}
use devvm.Session.Table.Find.{find-put_cases}
use devvm.Session.Daemon.{Transport, Daemon}
use devvm.Session.Add.{
  AddReq, AddStep, answered, waiting, claimed, add_section, add_at, add_new, add_old, usable,
  orphan, ephemeral_room,
}
use devvm.Session.System.{Task, adding}
use devvm.Session.System.Slots.{
  Slots, claims-young, put_free-Slots, put_idle-Slots, put_claimed-Slots, idle-claims,
}
use devvm.Session.System.Quiet.{Calm}

-- An exact forward that is still the same object keeps its host port, and stays exact.
abbrev pub Keeps : Table → Table → Type 0
Keeps fs fs' =
    (g : ℕ) (f f' : Fwd)
    → find g fs ≡ some f
    → find g fs' ≡ some f'
    → f'.id ≡ f.id
    → f.exact ≡ true
    → (f'.host ≡ f.host) × (f'.exact ≡ true)

pub record Advance (fs fs' : Table) (next : ℕ) (ts : List Task) : Type 0 where
  pub slots : Slots fs' next ts
  pub keeps : Keeps fs fs'

pub Keeps-refl : (fs : Table) → Keeps fs fs
Keeps-refl fs g f f' a b i k =
    let e : f ≡ f' = cc in (ap (λ (x : Fwd). x.host) (sym e), sym (ap (λ (x : Fwd). x.exact) e) ∙ k)

pub Calm-Keeps : {fs fs' : Table} → Calm fs fs' → Keeps fs fs'
Calm-Keeps c g f f' a b i k =
    let o = c.quiet g f' b in
    let found = o.found in
    let e : o.before ≡ f = cc in
    (o.same.host ∙ ap (λ (x : Fwd). x.host) e, o.same.exact ∙ ap (λ (x : Fwd). x.exact) e ∙ k)

-- A write to a slot that keeps an exact port.
pub put-Keeps :
    (x y : Fwd) (fs : Table)
    → find y.guest fs ≡ some x
    → (x.exact ≡ true → (y.host ≡ x.host) × (y.exact ≡ true))
    → Keeps fs (put y fs)
put-Keeps x y fs found pins g f f' a b i k = elim (find-put_cases g y fs b) [
  | inl (same, at) ↦
      let found' : find g fs ≡ some x = subst (λ n. find n fs ≡ some x) (sym at) found in
      let e : f ≡ x = cc in
      let (host, exact) = pins (sym (ap (λ (z : Fwd). z.exact) e) ∙ k) in
      (
        ap (λ (z : Fwd). z.host) (sym same) ∙ host ∙ ap (λ (z : Fwd). z.host) (sym e),
        ap (λ (z : Fwd). z.exact) (sym same) ∙ exact,
      )
  | inr (_, old) ↦ Keeps-refl fs g f f' a old i k
]

-- A write of a new object.
put_new-Keeps : (y : Fwd) (fs : Table) → find y.guest fs ≡ none → Keeps fs (put y fs)
put_new-Keeps y fs free g f f' a b i k = elim (find-put_cases g y fs b) [
  | inl (same, at) ↦
      let free' : find g fs ≡ none = subst (λ n. find n fs ≡ none) (sym at) free in
      absurd (ground arith)
  | inr (_, old) ↦ Keeps-refl fs g f f' a old i k
]

abbrev pub tasks_after : AddStep → List Task → List Task
tasks_after (claimed c) ts = adding c ∷ ts
tasks_after (answered a) ts = ts
tasks_after (waiting i) ts = ts

abbrev pub Added : Daemon → List Task → Daemon × AddStep → Type 0
Added d ts r = Advance d.forwards r.0.forwards r.0.next_fwd (tasks_after r.1 ts)

module _ (q : AddReq) (d : Daemon) (ts : List Task) (s : Slots d.forwards d.next_fwd ts) where
  stays : Advance d.forwards d.forwards d.next_fwd ts
  stays = record { slots = s; keeps = Keeps-refl d.forwards }

  add_new-Advance :
      (o : Option Transport) → find q.guest d.forwards ≡ none → Added d ts (add_new q o d)
  unfolding add_new
  add_new-Advance none e = record {
    slots =
        put_free-Slots (new_fwd d.next_fwd q.pref q.guest q.exact q.own q.expires) (suc d.next_fwd)
          (claims-young _ d.next_fwd ts (omega arith) s.young_tasks) refl (omega arith)
          (omega arith) s;
    keeps = put_new-Keeps _ d.forwards e;
  }
  add_new-Advance (some tr) e = record {
    slots =
        put_claimed-Slots (start_binding (new_fwd d.next_fwd q.pref q.guest false q.own q.expires))
          _ (suc d.next_fwd) refl (claims-young _ d.next_fwd ts (omega arith) s.young_tasks) refl
          (omega arith) (omega arith) (λ k. absurd (ground arith)) s;
    keeps = put_new-Keeps _ d.forwards e;
  }

  reused :
      (f : Fwd)
      → find f.guest d.forwards ≡ some f
      → f.binding ≡ false
      → Advance d.forwards
          (put
            (record f {
              owners = (add_owner q.own q.expires f.owners).0;
              exact = f.exact || q.exact;
            })
            d.forwards)
          d.next_fwd
          ts
  reused f e b = record {
    slots = put_idle-Slots f _ e b refl refl b s;
    keeps = put-Keeps f _ d.forwards e (λ k. (refl, ground arith));
  }

  add_old-Advance :
      (f : Fwd) (c : Option Closer) (o : Option Transport)
      → find f.guest d.forwards ≡ some f
      → f.binding ≡ false
      → Added d ts (add_old q f c o d)
  unfolding add_old
  add_old-Advance f (some c) o e b = reused f e b
  add_old-Advance f none none e b = reused f e b
  add_old-Advance f none (some tr) e b =
      let g = record f { owners = (add_owner q.own q.expires f.owners).0; binding = true } in
      record {
        slots =
            put_claimed-Slots g _ d.next_fwd refl (idle-claims f g e b refl refl s) refl
              (s.young f.guest f e) (omega arith) (λ k. (ground arith, ground arith)) s;
        keeps = put-Keeps f g d.forwards e (λ k. (refl, k));
      }

  add_at-Advance : (o : Option Fwd) → find q.guest d.forwards ≡ o → Added d ts (add_at q o d)
  unfolding add_at
  add_at-Advance none e =
      if_rule (Added d ts) (q.capped && not (ephemeral_room d)) (λ x. stays)
        (λ x. add_new-Advance (usable d) e)
  add_at-Advance (some f) e =
      let g = find-guest q.guest d.forwards e in
      let e' = subst (λ n. find n d.forwards ≡ some f) (sym g) e in
      if_rule (Added d ts) f.binding (λ x. stays)
        (λ b.
          if_rule (Added d ts) (q.exact && not (f.host == q.pref)) (λ x. stays)
            (λ x. add_old-Advance f f.closer (usable d) e' b))

  pub add_section-Advance : Added d ts (add_section q d)
  unfolding add_section
  add_section-Advance =
      if_rule (Added d ts) (orphan d.sessions q.own) (λ x. stays)
        (λ x. add_at-Advance (find q.guest d.forwards) refl)
