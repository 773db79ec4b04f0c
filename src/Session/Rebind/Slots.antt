-- ===== src/Session/Rebind/Slots.antt =====
-- What a lookup finds after the binder of one slot has finished.
use devvm.Prelude.{
  ℕ, Bool, true, false, ◌&&◌, ◌≡◌, ◌⊎◌, inl, inr, refl, sym, ◌∙◌, ap, subst, Option, none, some,
  arith, ◌==◌, if_rule, Bool-cases,
}
use devvm.Session.Owner.{Owners}
use devvm.Session.Fwd.{Fwd, Closer, finish_binding, unheld, is_none}
use devvm.Session.Table.{Table, Ref, ref_of, held, find, put}
use devvm.Session.Table.Rules.{held-find, find-guest}
use devvm.Session.Table.Find.{find-put, find-erase-some, find-put_cases}
use devvm.Session.Daemon.{Daemon, settle, settle_held}
use devvm.Session.Add.Binding.{adopt, adopt_into, adoptable, same_transport}

pub true-ne-false : true ≡ false → ⊥
true-ne-false e = cc

none-ne-some : {x : Fwd} → none ≡ some x → ⊥
none-ne-some e = cc

some-injective : {x y : Fwd} → some x ≡ some y → x ≡ y
some-injective e = cc

-- A slot that a binder's settling leaves, other than its own, was there before.
find-settle_held :
    (g : ℕ) (r : Ref) (o : Option Fwd) (fs : Table) {x : Fwd}
    → held r fs ≡ o
    → find g (settle_held o fs) ≡ some x
    → (ref_of x ≡ r → ⊥)
    → find g fs ≡ some x
unfolding settle_held
find-settle_held g r none fs h e k = e
find-settle_held g r (some f) fs {x} h e k =
    let (found, i) = held-find r fs {f = f} h in
    let at : f.guest ≡ r.guest = find-guest r.guest fs {f = f} found in
    elim (Bool-cases (unheld f)) [
      | inl u ↦ (find-erase-some g f.guest fs {x = x} (rw u at e)).1
      | inr u ↦ elim (find-put_cases g (finish_binding f) fs {x = x} (rw u at e)) [
        | inl (q, at') ↦ absurd (k (sym (ap ref_of q) ∙ same_ref at i))
        | inr (miss, found') ↦ found'
      ]
    ]
  where
    same_ref : f.guest ≡ r.guest → f.id ≡ r.id → ref_of (finish_binding f) ≡ r
    same_ref p q = cc

adopt_into_other :
    (o : Option Fwd) (h : ℕ) (c : Closer) (b : Bool) (d : Daemon) (g : ℕ) {x : Fwd}
    → find g (adopt_into o h c b d).0.forwards ≡ some x
    → (is_none x.closer ≡ false) ⊎ (find g d.forwards ≡ some x)
unfolding adopt_into
adopt_into_other none h c b d g e = inr e
adopt_into_other (some f) h c b d g {x} e = elim (find-put_cases g _ d.forwards {x = x} e) [
  | inl (q, at) ↦ inl (ap (λ y. is_none y.closer) (sym q))
  | inr (miss, k) ↦ inr k
]

held-of_find :
    (r : Ref) (fs : Table) {x : Fwd} → find r.guest fs ≡ some x → ref_of x ≡ r → held r fs ≡ some x
unfolding held
held-of_find r fs {x} e is = let i : x.id ≡ r.id = ap (λ y. y.id) is in rw e (ground arith)

-- The forward of the slot that was adopted is bound.
adopt_into_self :
    (r : Ref) (t : ℕ) (h : ℕ) (c : Closer) (b : Bool) (d : Daemon) (o : Option Fwd) {x : Fwd}
    → same_transport t d.tr ≡ true
    → held r d.forwards ≡ o
    → ref_of x ≡ r
    → find r.guest (adopt_into (adoptable t o d) h c b d).0.forwards ≡ some x
    → is_none x.closer ≡ false
unfolding adopt_into
adopt_into_self r t h c b d none {x} same k is e =
    absurd (none-ne-some (sym k ∙ held-of_find r d.forwards e is))
adopt_into_self r t h c b d (some f) {x} same k is e = elim (Bool-cases (is_none f.closer)) [
  | inr is_bound ↦
      let k' = held-of_find r d.forwards {x = x} (rw is_bound at e) is in
      let q : f ≡ x = some-injective (sym k ∙ k') in sym (ap (λ y. is_none y.closer) q) ∙ is_bound
  | inl pending ↦
      let e' = rw (pending, same) at e in
      let (found, i) = held-find r d.forwards {f = f} k in
      let at : f.guest ≡ r.guest = find-guest r.guest d.forwards {f = f} found in
      elim (find-put_cases r.guest _ d.forwards {x = x} e') [
        | inl (q, hit) ↦ ap (λ y. is_none y.closer) (sym q)
        | inr (miss, k') ↦ absurd (ground arith)
      ]
]

pub adopt-find :
    (t : ℕ) (r : Ref) (h : ℕ) (c : Closer) (b : Bool) (d : Daemon) (g : ℕ) {x : Fwd}
    → same_transport t d.tr ≡ true
    → find g (adopt t r h c b d).0.forwards ≡ some x
    → (is_none x.closer ≡ false) ⊎ ((find g d.forwards ≡ some x) × (ref_of x ≡ r → ⊥))
unfolding adopt settle
adopt-find t r h c b d g {x} same e =
    let s = record d { forwards = settle r d.forwards } in
    elim (Bool-cases (is_none x.closer)) [
      | inr is_bound ↦ inl is_bound
      | inl pending ↦
          let others : (ref_of x ≡ r → ⊥) = λ is.
            (let at : g ≡ r.guest =
                sym (find-guest g (adopt t r h c b d).0.forwards {f = x} e)
                ∙ ap (λ y. y.guest) is in
              absurd (
                true-ne-false (
                  sym pending
                  ∙ adopt_into_self r t h c b s (held r s.forwards) same refl is (
                      subst
                        (λ (n : ℕ).
                          find n (adopt_into (adoptable t (held r s.forwards) s) h c b s).0.forwards
                          ≡ some x)
                        at e)))) in
          elim (adopt_into_other (adoptable t (held r s.forwards) s) h c b s g {x = x} e) [
            | inl is_bound ↦ inl is_bound
            | inr k ↦
                inr (
                  find-settle_held g r (held r d.forwards) d.forwards {x = x} refl k others,
                  others,
                )
          ]
    ]

abbrev pub owners_of : Option Fwd → Option Owners
owners_of none = none
owners_of (some f) = some f.owners

-- Who holds the slot of a guest port, if there is one.
abbrev pub owners_at : ℕ → Table → Option Owners
owners_at g fs = owners_of (find g fs)

put-owners :
    (g : ℕ) (f x : Fwd) (fs : Table)
    → find f.guest fs ≡ some f
    → x.guest ≡ f.guest
    → x.owners ≡ f.owners
    → owners_at g (put x fs) ≡ owners_at g fs
put-owners g f x fs found at own = elim (Bool-cases (x.guest == g)) [
  | inl hit ↦
      let here : f.guest ≡ g = ground arith in
      let found' : find g fs ≡ some f = subst (λ (n : ℕ). find n fs ≡ some f) here found in
      ap owners_of (find-put g x fs) ∙ rw (hit, found') (ap (λ o. some o) own)
  | inr miss ↦ ap owners_of (find-put g x fs) ∙ rw miss refl
]

pub held-own_guest :
    (r : Ref) (fs : Table) {f : Fwd} → held r fs ≡ some f → find f.guest fs ≡ some f
held-own_guest r fs {f} h =
    let found = (held-find r fs {f = f} h).0 in
    subst (λ (n : ℕ). find n fs ≡ some f) (sym (find-guest r.guest fs {f = f} found)) found

settle_held-owners :
    (g : ℕ) (r : Ref) (o : Option Fwd) (fs : Table)
    → held r fs ≡ o
    → ((f : Fwd) → held r fs ≡ some f → unheld f ≡ false)
    → owners_at g (settle_held o fs) ≡ owners_at g fs
unfolding settle_held
settle_held-owners g r none fs h k = refl
settle_held-owners g r (some f) fs h k =
    rw (k f h) (put-owners g f (finish_binding f) fs (held-own_guest r fs h) refl refl)

adopt_into-owners :
    (g : ℕ) (r : Ref) (t : ℕ) (o : Option Fwd) (h : ℕ) (c : Closer) (b : Bool) (d : Daemon)
    → held r d.forwards ≡ o
    → owners_at g (adopt_into (adoptable t o d) h c b d).0.forwards ≡ owners_at g d.forwards
unfolding adopt_into
adopt_into-owners g r t none h c b d k = refl
adopt_into-owners g r t (some f) h c b d k =
    if_rule
      (λ (x : Option Fwd). owners_at g (adopt_into x h c b d).0.forwards ≡ owners_at g d.forwards)
      (is_none f.closer && same_transport t d.tr)
      (λ e. put-owners g f _ d.forwards (held-own_guest r d.forwards k) refl refl) (λ e. refl)

-- An adoption keeps who holds each forward.
pub adopt-owners :
    (g : ℕ) (t : ℕ) (r : Ref) (h : ℕ) (c : Closer) (b : Bool) (d : Daemon)
    → ((f : Fwd) → held r d.forwards ≡ some f → unheld f ≡ false)
    → owners_at g (adopt t r h c b d).0.forwards ≡ owners_at g d.forwards
unfolding adopt settle
adopt-owners g t r h c b d k =
    let s = record d { forwards = settle r d.forwards } in
    adopt_into-owners g r t (held r s.forwards) h c b s refl
    ∙ settle_held-owners g r (held r d.forwards) d.forwards refl k
