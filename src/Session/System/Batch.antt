-- ===== src/Session/System/Batch.antt =====
-- The first critical section of `rebindPending`: it claims each slot of the batch once.
use devvm.Prelude.{
  ℕ, suc, ◌<◌, true, false, ◌≡◌, refl, sym, ap, ◌∙◌, subst, List, [], ◌∷◌, ◌++◌, map, Option, none,
  some, arith, All, All-append, Bool-cases, inl, inr, ◌==◌, if◌then◌else◌, if_rule, leb,
}
use devvm.Session.Fwd.{Fwd, start_binding}
use devvm.Session.Table.{Table, find, Ref, ref_of, IsFree, IsMap, on_found}
use devvm.Session.Table.Rules.{find-guest}
use devvm.Session.Table.Unique.{All-of_find}
use devvm.Session.Daemon.{Sess}
use devvm.Session.Daemon.Unique.{find-map, map-IsMap}
use devvm.Session.Rebind.{Job, job_of, rebinds, claim_all, batch, insert_job}
use devvm.Session.System.{Task, rebinding}
use devvm.Session.System.Slots.{task_ref, ind, claims, Pins, Slots}

abbrev tasks_of : ℕ → List Job → List Task
tasks_of t js = map (λ j. rebinding j t) js

insert_job-All {κ} :
    (P : Job → Type κ) (j : Job) (js : List Job) → P j → All P js → All P (insert_job j js)
unfolding insert_job
insert_job-All P j [] h k = (h, tt)
insert_job-All P j (x ∷ js) h k =
    if_rule (All P) (leb j.ref.guest x.ref.guest) (λ e. (h, k))
      (λ e. (k.0, insert_job-All P j js h k.1))

claims-insert_job :
    (r : Ref) (t : ℕ) (j : Job) (js : List Job) (ts : List Task)
    → claims r (tasks_of t (insert_job j js) ++ ts)
      ≡ claims r (rebinding j t ∷ (tasks_of t js ++ ts))
unfolding insert_job
claims-insert_job r t j [] ts = refl
claims-insert_job r t j (x ∷ js) ts = ground (arith, claims-insert_job r t j js ts)

abbrev claim_one : List Sess → List ℕ → Fwd → Fwd
claim_one ss tried f = if rebinds ss tried f then start_binding f else f

claimed-host : (ss : List Sess) (tried : List ℕ) (f : Fwd) → (claim_one ss tried f).host ≡ f.host
claimed-host ss tried f = ground arith

claimed-stays : (ss : List Sess) (tried : List ℕ) (f : Fwd) → (claim_one ss tried f).exact ≡ f.exact
claimed-stays ss tried f = ground arith

module _ (ss : List Sess) (tried : List ℕ) (t : ℕ) where
  abbrev claimed_one : Fwd → Fwd
  claimed_one = claim_one ss tried

  batch-All {κ} :
      (P : Job → Type κ) (fs : Table) → All (λ f. P (job_of f)) fs → All P (batch ss tried fs)
  unfolding batch
  batch-All P [] h = tt
  batch-All P (f ∷ fs) h =
      if_rule (All P) (rebinds ss tried f)
        (λ e. insert_job-All P (job_of f) (batch ss tried fs) h.0 (batch-All P fs h.1))
        (λ e. batch-All P fs h.1)

  claims-batch_free :
      (r : Ref) (fs : Table) (ts : List Task)
      → IsFree r.guest fs
      → claims r (tasks_of t (batch ss tried fs) ++ ts) ≡ claims r ts
  unfolding batch
  claims-batch_free r [] ts k = refl
  claims-batch_free r (f ∷ fs) ts k =
      let rest = claims-batch_free r fs ts k.1 in
      elim (Bool-cases (rebinds ss tried f)) [
        | inl e ↦
            rw e (claims-insert_job r t (job_of f) (batch ss tried fs) ts ∙ ground (arith, rest))
        | inr e ↦ rw e rest
      ]

  batch_here :
      (f : Fwd) (fs : Table) (ts : List Task)
      → IsFree f.guest fs
      → claims (ref_of f) (tasks_of t (batch ss tried (f ∷ fs)) ++ ts)
        ≡ (if rebinds ss tried f then suc (claims (ref_of f) ts) else claims (ref_of f) ts)
  unfolding batch
  batch_here f fs ts k =
      let rest = claims-batch_free (ref_of f) fs ts k in
      elim (Bool-cases (rebinds ss tried f)) [
        | inl e ↦ rw e (
            claims-insert_job (ref_of f) t (job_of f) (batch ss tried fs) ts ∙ ground (arith, rest))
        | inr e ↦ rw e rest
      ]

  batch_elsewhere :
      (x f : Fwd) (fs : Table) (ts : List Task)
      → (f.guest == x.guest) ≡ false
      → claims (ref_of x) (tasks_of t (batch ss tried (f ∷ fs)) ++ ts)
        ≡ claims (ref_of x) (tasks_of t (batch ss tried fs) ++ ts)
  unfolding batch
  batch_elsewhere x f fs ts k = elim (Bool-cases (rebinds ss tried f)) [
    | inl e ↦ rw e (claims-insert_job (ref_of x) t (job_of f) (batch ss tried fs) ts ∙ ground arith)
    | inr e ↦ rw e
  ]

  -- The batch has one task for a slot that it takes, and none for any other.
  claims-batch :
      (h : ℕ) (x : Fwd) (fs : Table) (ts : List Task)
      → IsMap fs
      → find h fs ≡ some x
      → claims (ref_of x) (tasks_of t (batch ss tried fs) ++ ts)
        ≡ (if rebinds ss tried x then suc (claims (ref_of x) ts) else claims (ref_of x) ts)
  unfolding find
  claims-batch h x [] ts m e = absurd (ground arith)
  claims-batch h x (f ∷ fs) ts m e = elim (Bool-cases (f.guest == h)) [
    | inl hit ↦
        let e' = rw hit at e in
        subst
          (λ y.
            claims (ref_of y) (tasks_of t (batch ss tried (f ∷ fs)) ++ ts)
            ≡ (if rebinds ss tried y then suc (claims (ref_of y) ts) else claims (ref_of y) ts))
          {x = f} {y = x} (cc) (batch_here f fs ts m.0)
    | inr miss ↦
        let e' : find h fs ≡ some x = rw miss at e in
        let g = find-guest h fs e' in
        batch_elsewhere x f fs ts (ground arith) ∙ claims-batch h x fs ts m.1 e'
  ]

  -- A batch's job for a slot asks for the slot's port, exactly if the slot is exact.
  job-Pins :
      (x : Fwd)
      → x.exact ≡ true
      → (f : Fwd) → (f.guest ≡ x.guest → f ≡ x)
      → Pins x (rebinding (job_of f) t)
  job-Pins x k f same q =
      let e = same (ground arith) in (ap (λ (y : Fwd). y.exact) e ∙ k, ap (λ (y : Fwd). y.host) e)

  find_same :
      (h : ℕ) (x : Fwd) (fs : Table)
      → find h fs ≡ some x
      → (g : ℕ) (f : Fwd) → find g fs ≡ some f
      → f.guest ≡ x.guest
      → f ≡ x
  find_same h x fs e g f d q =
      let a = find-guest h fs e in
      let b = find-guest g fs d in
      let d' : find h fs ≡ some f = subst (λ n. find n fs ≡ some f) (sym b ∙ q ∙ a) d in cc

  tasks-All {κ} :
      (P : Task → Type κ) (js : List Job) → All (λ j. P (rebinding j t)) js → All P (tasks_of t js)
  tasks-All P [] k = tt
  tasks-All P (j ∷ js) k = (k.0, tasks-All P js k.1)

  claim_all-map : (fs : Table) → claim_all ss tried fs ≡ map claimed_one fs
  unfolding claim_all
  claim_all-map [] = refl
  claim_all-map (f ∷ fs) = ap (◌∷◌ (claimed_one f)) (claim_all-map fs)

  claimed_guest : (f : Fwd) → (claimed_one f).guest ≡ f.guest
  claimed_guest f = ground arith

  -- The forward before, for one found after the claims.
  find_claimed :
      (h : ℕ) (x : Fwd) (fs : Table)
      → find h (map claimed_one fs) ≡ some x
      → (f : Fwd) × (find h fs ≡ some f) × (claimed_one f ≡ x)
  find_claimed h x fs e =
      let e' = sym (find-map claimed_one (λ f. claimed_guest f) h fs) ∙ e in go (find h fs) refl e'
    where
      go :
          (o : Option Fwd)
          → find h fs ≡ o
          → on_found (λ f. some (claimed_one f)) o ≡ some x
          → (f : Fwd) × (find h fs ≡ some f) × (claimed_one f ≡ x)
      go none e k = absurd (ground arith)
      go (some f) e k = (f, e, cc)

  rebinds-idle : (f : Fwd) → rebinds ss tried f ≡ true → f.binding ≡ false
  rebinds-idle f h = ground arith

  module _ {fs : Table} {next : ℕ} {ts : List Task} (s : Slots fs next ts) where
    abbrev later_tasks : List Task
    later_tasks = tasks_of t (batch ss tried fs) ++ ts

    batch-one :
        (h : ℕ) (f : Fwd)
        → find h fs ≡ some f
        → claims (ref_of (claimed_one f)) later_tasks ≡ ind (claimed_one f).binding
    batch-one h f e = elim (Bool-cases (rebinds ss tried f)) [
      | inl r ↦ rw r (
          rw r at (claims-batch h f fs ts s.unique e)
          ∙ ap suc (s.one h f e ∙ ap ind (rebinds-idle f r)))
      | inr r ↦ rw r (rw r at (claims-batch h f fs ts s.unique e) ∙ s.one h f e)
    ]

    batch-pinned :
        (h : ℕ) (f : Fwd) → find h fs ≡ some f → f.exact ≡ true → All (Pins f) later_tasks
    batch-pinned h f e k =
        All-append (Pins f) (tasks_of t (batch ss tried fs)) ts
          (tasks-All (Pins f) (batch ss tried fs) (
            batch-All (λ j. Pins f (rebinding j t)) fs
              (All-of_find (λ g. Pins f (rebinding (job_of g) t)) fs s.unique
                (λ n g d. job-Pins f k g (find_same h f fs e n g d)))))
          (s.pinned h f e k)

    claimed-Pins : (f : Fwd) → All (Pins f) later_tasks → All (Pins (claimed_one f)) later_tasks
    claimed-Pins f k = elim (Bool-cases (rebinds ss tried f)) [ inl r ↦ rw r k | inr r ↦ rw r k ]

    batch-young : All (λ u. (task_ref u).id < next) later_tasks
    batch-young =
        All-append (λ u. (task_ref u).id < next) (tasks_of t (batch ss tried fs)) ts
          (tasks-All (λ u. (task_ref u).id < next) (batch ss tried fs)
            (batch-All (λ j. j.ref.id < next) fs
              (All-of_find (λ f. f.id < next) fs s.unique s.young)))
          s.young_tasks

    claimed-id : (f : Fwd) → (claimed_one f).id ≡ f.id
    claimed-id f = ground arith

    claimed-exact : (f : Fwd) → (claimed_one f).exact ≡ f.exact
    claimed-exact f = ground arith

    map-Slots : Slots (map claimed_one fs) next later_tasks
    map-Slots = record {
      unique = map-IsMap claimed_one (λ f. claimed_guest f) fs s.unique;
      young = λ h x e.
          let (f, d, q) = find_claimed h x fs e in
          subst (λ y. y.id < next) q (rw (claimed-id f) (s.young h f d));
      young_tasks = batch-young;
      one = λ h x e.
          let (f, d, q) = find_claimed h x fs e in
          subst (λ y. claims (ref_of y) later_tasks ≡ ind y.binding) q (batch-one h f d);
      pinned = λ h x e k.
          let (f, d, q) = find_claimed h x fs e in
          subst (λ y. All (Pins y) later_tasks) q
            (claimed-Pins f
              (batch-pinned h f d (sym (claimed-exact f) ∙ ap (λ (y : Fwd). y.exact) q ∙ k)));
    }

    pub batch-Slots : Slots (claim_all ss tried fs) next later_tasks
    batch-Slots = subst (λ xs. Slots xs next later_tasks) (sym (claim_all-map fs)) map-Slots

-- The claims change no port.
pub claim_all-Keeps :
    (ss : List Sess) (tried : List ℕ) (fs : Table)
    → (g : ℕ) (f f' : Fwd) → find g fs ≡ some f
    → find g (claim_all ss tried fs) ≡ some f'
    → f'.id ≡ f.id
    → f.exact ≡ true
    → (f'.host ≡ f.host) × (f'.exact ≡ true)
claim_all-Keeps ss tried fs g f f' a b i k =
    let (x, found, q) =
      find_claimed ss tried 0 g f' fs
        (subst (λ xs. find g xs ≡ some f') (claim_all-map ss tried 0 fs) b) in
    let e : f ≡ x = cc in
    (
      ap (λ (y : Fwd). y.host) (sym q) ∙ claimed-host ss tried x ∙ ap (λ (y : Fwd). y.host) (sym e),
      ap (λ (y : Fwd). y.exact) (sym q)
          ∙ claimed-stays ss tried x
          ∙ ap (λ (y : Fwd). y.exact) (sym e)
          ∙ k,
    )
