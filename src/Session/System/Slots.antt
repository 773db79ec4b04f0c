-- ===== src/Session/System/Slots.antt =====
-- Slots and their binders: a slot that is being bound has one task, and any other none.
use devvm.Prelude.{
  ℕ, suc, ◌<◌, ◌≤◌, Bool, true, false, ◌&&◌, ◌≡◌, refl, sym, ap, ◌∙◌, subst, List, [], ◌∷◌, some,
  arith, All, All-map, inl, inr, ◌==◌, if◌then◌else◌,
}
use devvm.Session.Fwd.{Fwd}
use devvm.Session.Table.{Table, find, put, erase, Ref, ref_of, IsMap}
use devvm.Session.Table.Rules.{find-guest}
use devvm.Session.Table.Find.{find-put_cases, find-erase-some}
use devvm.Session.Table.Unique.{IsMap-put, IsMap-erase}
use devvm.Session.System.{Task, adding, rebinding}

abbrev pub task_ref : Task → Ref
task_ref (adding c) = c.ref
task_ref (rebinding j t) = j.ref

-- The host port that the task's bind asks for, and whether it must get it.
abbrev pub task_target : Task → ℕ
task_target (adding c) = c.target
task_target (rebinding j t) = j.host

abbrev pub task_exact : Task → Bool
task_exact (adding c) = c.exact
task_exact (rebinding j t) = j.exact

abbrev pub same_ref : Ref → Ref → Bool
same_ref a b = a.guest == b.guest && a.id == b.id

abbrev pub ind : Bool → ℕ
ind b = if b then 1 else 0

-- How many tasks bind the slot.
abbrev pub claims : Ref → List Task → ℕ
claims r [] = 0
claims r (t ∷ ts) = let rest = claims r ts in if same_ref (task_ref t) r then suc rest else rest

-- A task for the slot is exact, at the slot's host port.
abbrev pub Pins : Fwd → Task → Type 0
Pins f t =
    same_ref (task_ref t) (ref_of f) ≡ true → (task_exact t ≡ true) × (task_target t ≡ f.host)

-- One record for each guest port; identities that are not handed out yet are in no use; a slot has
-- a task exactly while it is being bound, and then one; the task of an exact slot keeps its port.
pub record Slots (fs : Table) (next : ℕ) (ts : List Task) : Type 0 where
  pub unique : IsMap fs
  pub young : (g : ℕ) (f : Fwd) → find g fs ≡ some f → f.id < next
  pub young_tasks : All (λ t. (task_ref t).id < next) ts
  pub one : (g : ℕ) (f : Fwd) → find g fs ≡ some f → claims (ref_of f) ts ≡ ind f.binding
  pub pinned : (g : ℕ) (f : Fwd) → find g fs ≡ some f → f.exact ≡ true → All (Pins f) ts

-- Nothing binds a slot that has no task.
pub no_claims : (f : Fwd) (ts : List Task) → claims (ref_of f) ts ≡ 0 → All (Pins f) ts
no_claims f [] h = tt
no_claims f (t ∷ ts) h = (λ e. absurd (ground arith), no_claims f ts (ground arith))

pub claims-young :
    (r : Ref) (n : ℕ) (ts : List Task)
    → n ≤ r.id
    → All (λ t. (task_ref t).id < n) ts
    → claims r ts ≡ 0
claims-young r n [] h k = refl
claims-young r n (t ∷ ts) h k = ground (arith, claims-young r n ts h k.1)

claims_same :
    (f f' : Fwd) (ts : List Task)
    → f'.guest ≡ f.guest
    → f'.id ≡ f.id
    → claims (ref_of f') ts ≡ claims (ref_of f) ts
claims_same f f' ts g i = rw (g, i)

-- What two slots have in common when only owners and closers change.
pub record SameSlot (f f' : Fwd) : Type 0 where
  pub id : f'.id ≡ f.id
  pub host : f'.host ≡ f.host
  pub guest : f'.guest ≡ f.guest
  pub exact : f'.exact ≡ f.exact
  pub binding : f'.binding ≡ f.binding

pub record Origin (fs : Table) (g : ℕ) (f' : Fwd) : Type 0 where
  pub before : Fwd
  pub found : find g fs ≡ some before
  pub same : SameSlot before f'

abbrev pub Quiet : Table → Table → Type 0
Quiet fs fs' = (g : ℕ) (f' : Fwd) → find g fs' ≡ some f' → Origin fs g f'

Pins-same : {f f' : Fwd} → SameSlot f f' → (t : Task) → Pins f t → Pins f' t
Pins-same {f} {f'} k t p h =
    let (exact, port) = p (rw (k.guest, k.id) at h) in (exact, port ∙ sym k.host)

pub Quiet-Slots :
    {fs fs' : Table} {next : ℕ} {ts : List Task}
    → IsMap fs'
    → Quiet fs fs'
    → Slots fs next ts
    → Slots fs' next ts
Quiet-Slots {fs} {fs'} {next} {ts} m q s = record {
  unique = m;
  young = λ g f e. let o = q g f e in omega (arith, s.young g o.before o.found, o.same.id);
  young_tasks = s.young_tasks;
  one = λ g f e.
      let o = q g f e in
      claims_same o.before f ts o.same.guest o.same.id
      ∙ s.one g o.before o.found
      ∙ ap ind (sym o.same.binding);
  pinned = λ g f e x.
      let o = q g f e in
      All-map (Pins o.before) (Pins f) ts (λ t p h. Pins-same o.same t p h)
        (s.pinned g o.before o.found (sym o.same.exact ∙ x));
}

-- A record that no task binds may be written, under a new identity too.
pub put_free-Slots :
    {fs : Table} {next : ℕ} {ts : List Task} (f : Fwd) (later : ℕ)
    → claims (ref_of f) ts ≡ 0
    → f.binding ≡ false
    → f.id < later
    → next ≤ later
    → Slots fs next ts
    → Slots (put f fs) later ts
put_free-Slots {fs} {next} {ts} f later none_left b i n s = record {
  unique = IsMap-put f fs s.unique;
  young = λ h x e. elim (find-put_cases h f fs e) [
    | inl (same, _) ↦ subst (λ y. y.id < later) same i
    | inr (_, old) ↦ omega (arith, s.young h x old)
  ];
  young_tasks = All-map _ _ ts (λ t k. omega arith) s.young_tasks;
  one = λ h x e. elim (find-put_cases h f fs e) [
    | inl (same, _) ↦
        subst (λ y. claims (ref_of y) ts ≡ ind y.binding) same (none_left ∙ ap ind (sym b))
    | inr (_, old) ↦ s.one h x old
  ];
  pinned = λ h x e k. elim (find-put_cases h f fs e) [
    | inl (same, _) ↦ subst (λ y. All (Pins y) ts) same (no_claims f ts none_left)
    | inr (_, old) ↦ s.pinned h x old k
  ];
}

-- A slot that nobody binds has no task.
pub idle-claims :
    {fs : Table} {next : ℕ} {ts : List Task} (f f' : Fwd)
    → find f.guest fs ≡ some f
    → f.binding ≡ false
    → f'.guest ≡ f.guest
    → f'.id ≡ f.id
    → Slots fs next ts
    → claims (ref_of f') ts ≡ 0
idle-claims {ts = ts} f f' found idle g i s =
    claims_same f f' ts g i ∙ s.one f.guest f found ∙ ap ind idle

-- So its owners, its port and its closer may change.
pub put_idle-Slots :
    {fs : Table} {next : ℕ} {ts : List Task} (f f' : Fwd)
    → find f.guest fs ≡ some f
    → f.binding ≡ false
    → f'.guest ≡ f.guest
    → f'.id ≡ f.id
    → f'.binding ≡ false
    → Slots fs next ts
    → Slots (put f' fs) next ts
put_idle-Slots {next = next} f f' found idle g i b s =
    put_free-Slots f' next (idle-claims f f' found idle g i s) b
      (omega (arith, s.young f.guest f found, i)) (omega arith) s

pub erase-Slots :
    {fs : Table} {next : ℕ} {ts : List Task} (g : ℕ) → Slots fs next ts → Slots (erase g fs) next ts
erase-Slots {fs} {next} {ts} g s = record {
  unique = IsMap-erase g fs s.unique;
  young = λ h x e. s.young h x (find-erase-some h g fs e).1;
  young_tasks = s.young_tasks;
  one = λ h x e. s.one h x (find-erase-some h g fs e).1;
  pinned = λ h x e. s.pinned h x (find-erase-some h g fs e).1;
}

-- A claim: the slot is being bound, and its one task is there.
pub put_claimed-Slots :
    {fs : Table} {next : ℕ} {ts : List Task} (f : Fwd) (t : Task) (later : ℕ)
    → task_ref t ≡ ref_of f
    → claims (ref_of f) ts ≡ 0
    → f.binding ≡ true
    → f.id < later
    → next ≤ later
    → (f.exact ≡ true → (task_exact t ≡ true) × (task_target t ≡ f.host))
    → Slots fs next ts
    → Slots (put f fs) later (t ∷ ts)
put_claimed-Slots {fs} {next} {ts} f t later r none_left b i n pins s = record {
  unique = IsMap-put f fs s.unique;
  young = λ h x e. elim (find-put_cases h f fs e) [
    | inl (same, _) ↦ subst (λ y. y.id < later) same i
    | inr (_, old) ↦ omega (arith, s.young h x old)
  ];
  young_tasks = (rw r i, All-map _ _ ts (λ u k. omega arith) s.young_tasks);
  one = λ h x e. elim (find-put_cases h f fs e) [
    | inl (same, _) ↦ subst (λ y. claims (ref_of y) (t ∷ ts) ≡ ind y.binding) same mine
    | inr (other, old) ↦ rw (elsewhere h x other old) (s.one h x old)
  ];
  pinned = λ h x e k. elim (find-put_cases h f fs e) [
    | inl (same, _) ↦
        subst (λ y. All (Pins y) (t ∷ ts)) same
          ((λ _. pins (ap (λ (y : Fwd). y.exact) same ∙ k)), no_claims f ts none_left)
    | inr (other, old) ↦
        ((λ q. absurd (ground (arith, elsewhere h x other old))), s.pinned h x old k)
  ];
}
  where
    hit : same_ref (task_ref t) (ref_of f) ≡ true
    hit = rw r (ground arith)

    mine : claims (ref_of f) (t ∷ ts) ≡ ind f.binding
    mine = rw (hit) (ap suc none_left ∙ ap ind (sym b))

    elsewhere :
        (h : ℕ) (x : Fwd)
        → (f.guest == h) ≡ false
        → find h fs ≡ some x
        → same_ref (task_ref t) (ref_of x) ≡ false
    elsewhere h x other old = let g = find-guest h fs old in rw r (ground arith)
