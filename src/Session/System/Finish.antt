-- ===== src/Session/System/Finish.antt =====
-- A task ends: its slot is settled, and the other slots keep their tasks.
use devvm.Prelude.{
  ℕ, zero, suc, ◌<◌, true, false, ◌≡◌, refl, sym, ◌∙◌, subst, List, [], ◌∷◌, Option, none, some,
  arith, All, Bool-cases, Option-cases, inl, inr, ◌==◌, if_rule,
}
use devvm.Session.Fwd.{Fwd, finish_binding, unheld}
use devvm.Session.Table.{Table, find, put, Ref, ref_of, held}
use devvm.Session.Table.Rules.{find-guest, held-find}
use devvm.Session.Table.Find.{find-put_cases, find-erase-some}
use devvm.Session.Table.Unique.{IsMap-put}
use devvm.Session.Daemon.{settle, settle_held}
use devvm.Session.System.{Task, take_task}
use devvm.Session.System.Slots.{
  task_ref, same_ref, ind, claims, Pins, Slots, no_claims, erase-Slots,
}

-- A task whose slot is not in the table may go.
drop_task-Slots :
    {fs : Table} {next : ℕ} {t : Task} {ts : List Task}
    → ((h : ℕ) (x : Fwd) → find h fs ≡ some x → same_ref (task_ref t) (ref_of x) ≡ false)
    → Slots fs next (t ∷ ts)
    → Slots fs next ts
drop_task-Slots {fs} {next} {t} {ts} away s = record {
  unique = s.unique;
  young = s.young;
  young_tasks = s.young_tasks.1;
  one = λ h x e. rw (away h x e) at (s.one h x e);
  pinned = λ h x e k. (s.pinned h x e k).1;
}

-- The record that a reference holds is the only one that it fits.
same_ref-held :
    (r : Ref) (fs : Table) (h : ℕ) (x : Fwd)
    → find h fs ≡ some x
    → same_ref r (ref_of x) ≡ true
    → held r fs ≡ some x
unfolding held
same_ref-held r fs h x e k =
    let g = find-guest h fs e in
    let here : find r.guest fs ≡ some x = subst (λ n. find n fs ≡ some x) (ground arith) e in
    rw here (ground arith)

settle_free :
    (f : Fwd) (t : Task) (ts : List Task)
    → same_ref (task_ref t) (ref_of f) ≡ true
    → claims (ref_of f) (t ∷ ts) ≡ ind f.binding
    → claims (ref_of f) ts ≡ 0
settle_free f t ts k h = ground arith

finish-Slots :
    {fs : Table} {next : ℕ} {t : Task} {ts : List Task} (f : Fwd)
    → find f.guest fs ≡ some f
    → same_ref (task_ref t) (ref_of f) ≡ true
    → Slots fs next (t ∷ ts)
    → Slots (put (finish_binding f) fs) next ts
finish-Slots {fs} {next} {t} {ts} f found k s = record {
  unique = IsMap-put g fs s.unique;
  young = λ h x e. elim (find-put_cases h g fs e) [
    | inl (same, _) ↦ subst (λ y. y.id < next) same (s.young f.guest f found)
    | inr (_, old) ↦ s.young h x old
  ];
  young_tasks = s.young_tasks.1;
  one = λ h x e. elim (find-put_cases h g fs e) [
    | inl (same, _) ↦ subst (λ y. claims (ref_of y) ts ≡ ind y.binding) same none_left
    | inr (other, old) ↦ rw (elsewhere h x other old) at (s.one h x old)
  ];
  pinned = λ h x e w. elim (find-put_cases h g fs e) [
    | inl (same, _) ↦ subst (λ y. All (Pins y) ts) same (no_claims g ts none_left)
    | inr (_, old) ↦ (s.pinned h x old w).1
  ];
}
  where
    g : Fwd
    g = finish_binding f

    none_left : claims (ref_of f) ts ≡ 0
    none_left = settle_free f t ts k (s.one f.guest f found)

    elsewhere :
        (h : ℕ) (x : Fwd)
        → (f.guest == h) ≡ false
        → find h fs ≡ some x
        → same_ref (task_ref t) (ref_of x) ≡ false
    elsewhere h x other old = let e = find-guest h fs old in ground arith

pub settle-Slots :
    {fs : Table} {next : ℕ} {ts : List Task} (t : Task)
    → Slots fs next (t ∷ ts)
    → Slots (settle (task_ref t) fs) next ts
unfolding settle
settle-Slots {fs} {next} {ts} t s = go (held (task_ref t) fs) refl
  where
    r : Ref
    r = task_ref t

    go : (o : Option Fwd) → held r fs ≡ o → Slots (settle_held o fs) next ts
    go none e = drop_task-Slots (λ h x found. missing h x found) s
      where
        missing : (h : ℕ) (x : Fwd) → find h fs ≡ some x → same_ref r (ref_of x) ≡ false
        missing h x found = elim (Bool-cases (same_ref r (ref_of x))) [
          | inl k ↦ let q = same_ref-held r fs h x found k in absurd (ground arith)
          | inr k ↦ k
        ]
    go (some f) e =
        let (found, i) = held-find r fs e in
        let g = find-guest r.guest fs found in
        if_rule (λ t. Slots t next ts) (unheld f)
          (λ u.
            drop_task-Slots (λ h x q. gone h x g (find-erase-some h f.guest fs q))
              (erase-Slots f.guest s))
          (λ u.
            finish-Slots {t = t} f (subst (λ n. find n fs ≡ some f) (sym g) found) (ground arith) s)
      where
        gone :
            (h : ℕ) (x : Fwd)
            → f.guest ≡ r.guest
            → ((f.guest == h) ≡ false) × (find h fs ≡ some x)
            → same_ref r (ref_of x) ≡ false
        gone h x g (other, old) = let e = find-guest h fs old in ground arith

-- Which task is taken makes no difference to the others.
claims-take :
    (r : Ref) (k : ℕ) (ts : List Task) {t : Task} {rest : List Task}
    → take_task k ts ≡ some (t, rest)
    → claims r ts ≡ claims r (t ∷ rest)
unfolding take_task
claims-take r zero [] e = cc
claims-take r zero (u ∷ ts) e = ground arith
claims-take r (suc k) [] e = cc
claims-take r (suc k) (u ∷ ts) {t} {rest} e = elim (Option-cases (take_task k ts)) [
  | inl q ↦ let e' = rw (q, take_task) at e in cc
  | inr ((v, vs), q) ↦
      let e' = rw (q, take_task) at e in ground (arith, claims-take r k ts {t = v} {rest = vs} q)
]

All-take {κ} :
    (P : Task → Type κ) (k : ℕ) (ts : List Task) {t : Task} {rest : List Task}
    → take_task k ts ≡ some (t, rest)
    → All P ts
    → All P (t ∷ rest)
unfolding take_task
All-take P zero [] e h = absurd (ground arith)
All-take P zero (u ∷ ts) {t} {rest} e h =
    subst (λ (p : Task × List Task). All P (p.0 ∷ p.1)) {x = (u, ts)} {y = (t, rest)} (cc) h
All-take P (suc k) [] e h = absurd (ground arith)
All-take P (suc k) (u ∷ ts) {t} {rest} e h = elim (Option-cases (take_task k ts)) [
  | inl q ↦ let e' = rw (q, take_task) at e in absurd (ground arith)
  | inr ((v, vs), q) ↦
      let e' = rw (q, take_task) at e in
      let (a, b) = All-take P k ts {t = v} {rest = vs} q h.1 in
      subst (λ (p : Task × List Task). All P (p.0 ∷ p.1)) {x = (v, u ∷ vs)} {y = (t, rest)} (cc)
        (a, (h.0, b))
]

pub take-Slots :
    {fs : Table} {next : ℕ} (k : ℕ) (ts : List Task) (t : Task) (rest : List Task)
    → take_task k ts ≡ some (t, rest)
    → Slots fs next ts
    → Slots fs next (t ∷ rest)
take-Slots {fs} {next} k ts t rest e s = record {
  unique = s.unique;
  young = s.young;
  young_tasks = All-take _ k ts e s.young_tasks;
  one = λ h x q. sym (claims-take (ref_of x) k ts e) ∙ s.one h x q;
  pinned = λ h x q w. All-take (Pins x) k ts e (s.pinned h x q w);
}
