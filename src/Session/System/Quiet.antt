-- ===== src/Session/System/Quiet.antt =====
-- The operations that change owners and closers only: every slot that is left was there before,
-- with the same ports and the same binder.
use devvm.Prelude.{
  ℕ, Bool, not, ◌≡◌, refl, sym, ◌∙◌, subst, List, Option, none, some, arith, Option-cases, inl, inr,
  if_rule,
}
use devvm.Session.Owner.{Owner, delete_owner, is_conf}
use devvm.Session.Fwd.{Fwd, unheld}
use devvm.Session.Table.{Table, find, put, erase, IsMap, on_found}
use devvm.Session.Table.Rules.{find-guest}
use devvm.Session.Table.Find.{find-put_cases, find-erase-some}
use devvm.Session.Table.Unique.{IsMap-put, IsMap-erase}
use devvm.Session.Daemon.{
  Daemon, drop_owners, drop_matching, detach_all, detach, remove, remove_from, Removed, released,
  idle_now, down, on_dead, owned_by_relay,
}
use devvm.Session.Daemon.Unique.{
  dropped, drop_owners-IsMap, find-drop_owners, detached, detach_all-map, find-map, map-IsMap,
}
use devvm.Session.Sessions.{close_session}
use devvm.Session.System.{Task}
use devvm.Session.System.Slots.{SameSlot, Origin, Quiet, Slots, Quiet-Slots}

-- A table with one record for each guest port, all of them there before.
pub record Calm (fs fs' : Table) : Type 0 where
  pub unique : IsMap fs'
  pub quiet : Quiet fs fs'

pub Calm-Slots :
    {fs fs' : Table} {next : ℕ} {ts : List Task}
    → Calm fs fs'
    → Slots fs next ts
    → Slots fs' next ts
Calm-Slots c s = Quiet-Slots c.unique c.quiet s

same_slot : (f : Fwd) → SameSlot f f
same_slot f = record { id = refl; host = refl; guest = refl; exact = refl; binding = refl }

abbrev origin :
    (fs : Table) (g : ℕ) (f f' : Fwd) → find g fs ≡ some f → SameSlot f f' → Origin fs g f'
origin fs g f f' e k = record { before = f; found = e; same = k }

pub Calm-refl : (fs : Table) → IsMap fs → Calm fs fs
Calm-refl fs m = record { unique = m; quiet = λ g f e. origin fs g f f e (same_slot f) }

pub Calm-trans : {xs ys zs : Table} → Calm xs ys → Calm ys zs → Calm xs zs
Calm-trans {xs} a b = record {
  unique = b.unique;
  quiet = λ g f e.
      let o = b.quiet g f e in
      let p = a.quiet g o.before o.found in
      origin xs g p.before f p.found (record {
        id = o.same.id ∙ p.same.id;
        host = o.same.host ∙ p.same.host;
        guest = o.same.guest ∙ p.same.guest;
        exact = o.same.exact ∙ p.same.exact;
        binding = o.same.binding ∙ p.same.binding;
      });
}

pub put-Calm :
    (f f' : Fwd) (fs : Table)
    → IsMap fs
    → find f.guest fs ≡ some f
    → SameSlot f f'
    → Calm fs (put f' fs)
put-Calm f f' fs m found k = record {
  unique = IsMap-put f' fs m;
  quiet = λ g x e. elim (find-put_cases g f' fs e) [
    | inl (same, at) ↦
        subst (λ y. Origin fs g y) same
          (origin fs g f f' (subst (λ n. find n fs ≡ some f) (sym k.guest ∙ sym at) found) k)
    | inr (_, old) ↦ origin fs g x x old (same_slot x)
  ];
}

pub erase-Calm : (g : ℕ) (fs : Table) → IsMap fs → Calm fs (erase g fs)
erase-Calm g fs m = record {
  unique = IsMap-erase g fs m;
  quiet = λ h x e. origin fs h x x (find-erase-some h g fs e).1 (same_slot x);
}

pub drop_owners-Calm :
    (match : Owner → ℕ → Bool) (fs : Table) → IsMap fs → Calm fs (drop_owners match fs).0
drop_owners-Calm match fs m = record {
  unique = drop_owners-IsMap match fs m;
  quiet = λ g x e. go g x (find g fs) refl (sym (find-drop_owners match g fs m) ∙ e);
}
  where
    go :
        (g : ℕ) (x : Fwd) (o : Option Fwd)
        → find g fs ≡ o
        → on_found (dropped match) o ≡ some x
        → Origin fs g x
    go g x none e k = absurd (ground arith)
    go g x (some f) e k = origin fs g f x e (record {
      id = ground arith;
      host = ground arith;
      guest = ground arith;
      exact = ground arith;
      binding = ground arith;
    })

pub detach_all-Calm : (fs : Table) → IsMap fs → Calm fs (detach_all fs)
detach_all-Calm fs m = subst (Calm fs) (sym (detach_all-map fs)) (record {
  unique = map-IsMap detached (λ f. refl) fs m;
  quiet = λ g x e. go g x (find g fs) refl (sym (find-map detached (λ f. refl) g fs) ∙ e);
})
  where
    go :
        (g : ℕ) (x : Fwd) (o : Option Fwd)
        → find g fs ≡ o
        → on_found (λ f. some (detached f)) o ≡ some x
        → Origin fs g x
    go g x none e k = absurd (ground arith)
    go g x (some f) e k = origin fs g f x e (record {
      id = ground arith;
      host = ground arith;
      guest = ground arith;
      exact = ground arith;
      binding = ground arith;
    })

module _ (d : Daemon) (m : IsMap d.forwards) where
  pub close_session-Calm : (i : ℕ) → Calm d.forwards (close_session i d).forwards
  unfolding close_session drop_matching
  close_session-Calm i = drop_owners-Calm _ d.forwards m

  pub drop_matching-Calm :
      (match : Owner → ℕ → Bool) → Calm d.forwards (drop_matching match d).forwards
  unfolding drop_matching
  drop_matching-Calm match = drop_owners-Calm match d.forwards m

  pub down-Calm : Calm d.forwards (down d).0.forwards
  unfolding down
  down-Calm =
      if_rule (λ (r : Daemon × Bool). Calm d.forwards r.0.forwards)
        (idle_now (drop_matching (λ o e. is_conf o) d)) (λ e. drop_owners-Calm _ d.forwards m)
        (λ e. drop_owners-Calm _ d.forwards m)

  pub detach-Calm : Calm d.forwards (detach d).forwards
  unfolding detach
  detach-Calm = detach_all-Calm d.forwards m

  pub on_dead-Calm : Calm d.forwards (on_dead d).forwards
  unfolding on_dead
  on_dead-Calm =
      let c = drop_owners-Calm (owned_by_relay d.sessions) d.forwards m in
      Calm-trans c (detach_all-Calm _ c.unique)

  remove_from-Calm :
      (own : Owner) (f : Fwd)
      → find f.guest d.forwards ≡ some f
      → Calm d.forwards (remove_from own f d).0.forwards
  unfolding remove_from
  remove_from-Calm own f e =
      let g = record f { owners = delete_owner own f.owners } in
      let kept =
        put-Calm f g d.forwards m e
          (record { id = refl; host = refl; guest = refl; exact = refl; binding = refl }) in
      if_rule (λ (r : Daemon × Removed). Calm d.forwards r.0.forwards) (not (unheld g)) (λ q. kept)
        (λ q.
          if_rule (λ (r : Daemon × Removed). Calm d.forwards r.0.forwards) (released g)
            (λ b. erase-Calm f.guest d.forwards m) (λ b. kept))

  pub remove-Calm : (g : ℕ) (own : Owner) → Calm d.forwards (remove g own d).0.forwards
  unfolding remove
  remove-Calm g own = elim (Option-cases (find g d.forwards)) [
    | inl e ↦ rw (e, remove) (Calm-refl d.forwards m)
    | inr (f, e) ↦
        let q = find-guest g d.forwards e in
        rw (e, remove) (remove_from-Calm own f (subst (λ n. find n d.forwards ≡ some f) (sym q) e))
  ]
