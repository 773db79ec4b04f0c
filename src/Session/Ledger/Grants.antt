-- ===== src/Session/Ledger/Grants.antt =====
-- What an add records: the first critical section of `addWith`.
use devvm.Prelude.{
  ℕ, true, false, not, ◌&&◌, ◌≡◌, ◌⊎◌, inl, inr, refl, sym, ◌∙◌, ap, subst, [], ◌∷◌, Option, none,
  some, ltb, ◌==◌, if◌then◌else◌, if_rule, arith, Bool-cases, Option-cases,
}
use devvm.Session.Owner.{Owner, Owners, same, expiry_of, put_owner, add_owner}
use devvm.Session.Fwd.{Fwd, Closer}
use devvm.Session.Table.{Table, find, put}
use devvm.Session.Table.Find.{find-put}
use devvm.Session.Table.Rules.{find-guest}
use devvm.Session.Daemon.{Daemon, Transport}
use devvm.Session.Add.{
  AddReq, AddStep, add_section, add_at, add_new, add_old, usable, orphan, ephemeral_room,
}
use devvm.Session.Holding.{holding, held_by, same-eq}
use devvm.Session.Ledger.{grant}

same_refl : (o : Owner) → same o o ≡ true
same_refl Owner.conf = refl
same_refl Owner.ttl = refl
same_refl (Owner.connection c) = ground arith

-- Two owners that are the same as a third are the same.
same-apart : (p own o : Owner) → same p own ≡ false → same p o ≡ true → same own o ≡ false
same-apart p own o n e = elim (Bool-cases (same own o)) [
  | inr k ↦ k
  | inl k ↦
      let a : p ≡ o = same-eq p o e in
      let b : own ≡ o = same-eq own o k in
      let c : same p own ≡ true = rw (a, b) (same_refl o) in absurd (cc)
]

expiry_of-put_owner :
    (own o : Owner) (e : ℕ) (m : Owners)
    → expiry_of o (put_owner own e m) ≡ (if same own o then some e else expiry_of o m)
unfolding expiry_of put_owner
expiry_of-put_owner own o e [] = refl
expiry_of-put_owner own o e ((p, x) ∷ m) =
    let ih = expiry_of-put_owner own o e m in
    elim (Bool-cases (same p own)) [
      | inl k ↦
          let a : same own o ≡ same p o = ap (λ y. same y o) (sym (same-eq p own k)) in
          elim (Bool-cases (same p o)) [ inl h ↦ rw (k, a, h) refl | inr h ↦ rw (k, a, h) refl ]
      | inr k ↦ elim (Bool-cases (same p o)) [
        | inl h ↦ rw (k, same-apart p own o k h, h) refl
        | inr h ↦ rw (k, h) ih
      ]
    ]

expiry_of-add_owner :
    (own o : Owner) (e : ℕ) (m : Owners)
    → expiry_of o (add_owner own e m).0
      ≡ (if same own o then grant e (expiry_of own m) else expiry_of o m)
unfolding add_owner
expiry_of-add_owner own o e m = elim (Option-cases (expiry_of own m)) [
  | inl k ↦ rw (k, add_owner) (expiry_of-put_owner own o e m)
  | inr (cur, k) ↦ elim (Bool-cases (ltb cur e)) [
    | inl l ↦ rw (k, add_owner) (rw l (expiry_of-put_owner own o e m))
    | inr l ↦
        rw (k, add_owner)
          (rw l (elim (Bool-cases (same own o)) [
            | inl q ↦ rw q (ap (λ p. expiry_of p m) (sym (same-eq own o q)) ∙ k)
            | inr q ↦ rw q refl
          ]))
  ]
]

-- A record written under its guest port, with one owner's hold granted.
Granted : ℕ → Owner → ℕ → ℕ → Owner → Option ℕ → Option ℕ → Type 0
Granted guest own e g o x y = (y ≡ x) ⊎ ((g ≡ guest) × (o ≡ own) × (y ≡ grant e x))

put-Granted :
    (own : Owner) (e g : ℕ) (o : Owner) (f : Fwd) (fs : Table)
    → ((p : Owner)
        → held_by p (some f)
          ≡ (if same own p then grant e (holding f.guest own fs) else holding f.guest p fs))
    → Granted f.guest own e g o (holding g o fs) (holding g o (put f fs))
unfolding Granted holding
put-Granted own e g o f fs h = elim (Bool-cases (f.guest == g)) [
  | inr miss ↦ inl (ap (held_by o) {y = find g fs} (find-put g f fs ∙ rw miss refl))
  | inl hit ↦
      let at : f.guest ≡ g = ground arith in
      let here : held_by o (find g (put f fs)) ≡ held_by o (some f) =
        ap (held_by o) {y = some f} (find-put g f fs ∙ rw hit refl) in
      elim (Bool-cases (same own o)) [
        | inl k ↦
            let q : own ≡ o = same-eq own o k in
            inr (
              sym at,
              sym q,
              here
                  ∙ h o
                  ∙ rw k (
                      ap (λ p. grant e (held_by p (find f.guest fs))) q
                      ∙ ap (λ (n : ℕ). grant e (held_by o (find n fs))) at),
            )
        | inr k ↦ inl (here ∙ h o ∙ rw k (ap (λ (n : ℕ). held_by o (find n fs)) at))
      ]
]

-- A new slot is its owner's alone.
add_new-Granted :
    (q : AddReq) (tr : Option Transport) (d : Daemon) (g : ℕ) (o : Owner)
    → find q.guest d.forwards ≡ none
    → Granted q.guest q.own q.expires g o
        (holding g o d.forwards)
        (holding g o (add_new q tr d).0.forwards)
unfolding add_new holding expiry_of
add_new-Granted q none d g o k = put-Granted q.own q.expires g o _ d.forwards (λ p. rw k refl)
add_new-Granted q (some tr) d g o k = put-Granted q.own q.expires g o _ d.forwards (λ p. rw k refl)

add_old-Granted :
    (q : AddReq) (f : Fwd) (c : Option Closer) (tr : Option Transport) (d : Daemon) (g : ℕ)
    (o : Owner)
    → find f.guest d.forwards ≡ some f
    → Granted f.guest q.own q.expires g o
        (holding g o d.forwards)
        (holding g o (add_old q f c tr d).0.forwards)
unfolding add_old holding
add_old-Granted q f (some c) tr d g o found =
    put-Granted q.own q.expires g o _ d.forwards
      (λ p. rw found (expiry_of-add_owner q.own p q.expires f.owners))
add_old-Granted q f none none d g o found =
    put-Granted q.own q.expires g o _ d.forwards
      (λ p. rw found (expiry_of-add_owner q.own p q.expires f.owners))
add_old-Granted q f none (some tr) d g o found =
    put-Granted q.own q.expires g o _ d.forwards
      (λ p. rw found (expiry_of-add_owner q.own p q.expires f.owners))

add_at-Granted :
    (q : AddReq) (x : Option Fwd) (d : Daemon) (g : ℕ) (o : Owner)
    → find q.guest d.forwards ≡ x
    → Granted q.guest q.own q.expires g o
        (holding g o d.forwards)
        (holding g o (add_at q x d).0.forwards)
unfolding add_at Granted
add_at-Granted q none d g o k =
    if_rule
      (λ (r : Daemon × AddStep).
        Granted q.guest q.own q.expires g o (holding g o d.forwards) (holding g o r.0.forwards))
      (q.capped && not (ephemeral_room d)) (λ e. inl refl)
      (λ e. add_new-Granted q (usable d) d g o k)
add_at-Granted q (some f) d g o k =
    let P : Daemon × AddStep → Type 0 = λ r.
      Granted q.guest q.own q.expires g o (holding g o d.forwards) (holding g o r.0.forwards) in
    let at : f.guest ≡ q.guest = find-guest q.guest d.forwards {f = f} k in
    if_rule P f.binding (λ e. inl refl)
      (λ e.
        if_rule P (q.exact && not (f.host == q.pref)) (λ e'. inl refl)
          (λ e'.
            subst
              (λ (n : ℕ).
                Granted n q.own q.expires g o (holding g o d.forwards)
                  (holding g o (add_old q f f.closer (usable d) d).0.forwards))
              at
              (add_old-Granted q f f.closer (usable d) d g o
                (ap (λ (n : ℕ). find n d.forwards) at ∙ k))))

-- The section leaves every hold as it was, or grants the one that is asked for.
pub add_section-Granted :
    (q : AddReq) (d : Daemon) (g : ℕ) (o : Owner)
    → (holding g o (add_section q d).0.forwards ≡ holding g o d.forwards)
      ⊎ ((g ≡ q.guest)
          × (o ≡ q.own)
          × (holding g o (add_section q d).0.forwards ≡ grant q.expires (holding g o d.forwards)))
unfolding add_section Granted
add_section-Granted q d g o =
    if_rule
      (λ (r : Daemon × AddStep).
        Granted q.guest q.own q.expires g o (holding g o d.forwards) (holding g o r.0.forwards))
      (orphan d.sessions q.own) (λ e. inl refl)
      (λ e. add_at-Granted q (find q.guest d.forwards) d g o refl)
