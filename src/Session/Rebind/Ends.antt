-- ===== src/Session/Rebind/Ends.antt =====
-- A pass of `rebindPending` that runs alone comes to its end: two rounds are enough.
use devvm.Prelude.{
  ℕ, suc, Bool, true, false, ◌≡◌, inl, inr, refl, sym, subst, List, [], ◌∷◌, ◌++◌, Option, none,
  some, arith, ==_refl, if◌then◌else◌, if_rule, Bool-cases, All, All-map, is_empty,
}
use devvm.Session.Fwd.{Fwd, Closer, finish_binding, unheld}
use devvm.Session.Table.{Table, Ref, held}
use devvm.Session.Table.Rules.{held-find, All-put, All-erase}
use devvm.Session.Bind.{Forwarder, BindRes, bound, unbound, bind}
use devvm.Session.Daemon.{Transport, Sess, Daemon, settle, settle_held}
use devvm.Session.Add.Binding.{adopt, adopt_into, adoptable}
use devvm.Session.Rebind.{
  Job, ids, member, rebinds, claim_all, batch, settle_all, Rebound, job_result, fatal, run_batch,
  rebind_rounds, rebind_pending,
}

member-append_left : (x : ℕ) (xs ys : List ℕ) → member x xs ≡ true → member x (xs ++ ys) ≡ true
member-append_left x [] ys h = absurd (cc)
member-append_left x (y ∷ xs) ys h = ground (arith, member-append_left x xs ys)

member-append_right : (x : ℕ) (xs ys : List ℕ) → member x ys ≡ true → member x (xs ++ ys) ≡ true
member-append_right x [] ys h = h
member-append_right x (y ∷ xs) ys h = ground (arith, member-append_right x xs ys h)

module _ (ss : List Sess) (tried : List ℕ) where
  -- Another batch would not take the forward.
  abbrev IsPassed : Fwd → Type 0
  IsPassed f = rebinds ss tried f ≡ false

  abbrev IsTried : Ref → Type 0
  IsTried r = member r.id tried ≡ true

  settle_held-Passed :
      (r : Ref) (o : Option Fwd) (fs : Table)
      → held r fs ≡ o
      → IsTried r
      → All IsPassed fs
      → All IsPassed (settle_held o fs)
  unfolding settle_held
  settle_held-Passed r none fs e t k = k
  settle_held-Passed r (some f) fs e t k =
      let i : f.id ≡ r.id = (held-find r fs {f = f} e).1 in
      let known : member f.id tried ≡ true = subst (λ n. member n tried ≡ true) (sym i) t in
      if_rule (All IsPassed) (unheld f) (λ u. All-erase IsPassed f.guest fs k)
        (λ u. All-put IsPassed (finish_binding f) fs (ground arith) k)

  settle-Passed : (r : Ref) (fs : Table) → IsTried r → All IsPassed fs → All IsPassed (settle r fs)
  unfolding settle
  settle-Passed r fs t k = settle_held-Passed r (held r fs) fs refl t k

  settle_all-Passed :
      (js : List Job) (fs : Table)
      → All (λ j. IsTried j.ref) js
      → All IsPassed fs
      → All IsPassed (settle_all js fs)
  unfolding settle_all
  settle_all-Passed [] fs t k = k
  settle_all-Passed (j ∷ js) fs t k =
      settle_all-Passed js (settle j.ref fs) t.1 (settle-Passed j.ref fs t.0 k)

  -- What a pass keeps: its sessions, and that another batch would take nothing.
  abbrev IsSpent : Daemon → Type 0
  IsSpent d = (d.sessions ≡ ss) × All IsPassed d.forwards

  adopt_into-Spent :
      (o : Option Fwd) (h : ℕ) (c : Closer) (x : Bool) (d : Daemon)
      → IsSpent d
      → IsSpent (adopt_into o h c x d).0
  unfolding adopt_into
  adopt_into-Spent none h c x d k = k
  adopt_into-Spent (some f) h c x d k = (k.0, All-put IsPassed _ d.forwards refl k.1)

  job_result-Spent :
      (tr : Transport) (j : Job) (res : BindRes) (d : Daemon)
      → IsTried j.ref
      → IsSpent d
      → IsSpent (job_result tr j res d).0
  unfolding job_result adopt
  job_result-Spent tr j (unbound e) d t k = (k.0, settle-Passed j.ref d.forwards t k.1)
  job_result-Spent tr j (bound h c b) d t k =
      let e = record d { forwards = settle j.ref d.forwards } in
      adopt_into-Spent (adoptable tr.id (held j.ref e.forwards) e) h c j.exact e
        (k.0, settle-Passed j.ref d.forwards t k.1)

  run_batch-Spent :
      (fail_fast : Bool) (tr : Transport) (forward : Forwarder) (js : List Job) (n : ℕ) (d : Daemon)
      → All (λ j. IsTried j.ref) js
      → IsSpent d
      → IsSpent (run_batch fail_fast tr forward js n d).daemon
  unfolding run_batch
  run_batch-Spent fail_fast tr forward [] n d t k = k
  run_batch-Spent fail_fast tr forward (j ∷ js) n d t k =
      let res = bind (some forward) j.host j.ref.guest j.exact in
      let r = job_result tr j res d in
      let s = job_result-Spent tr j res d t.0 k in
      if_rule (λ (x : Rebound). IsSpent x.daemon) (fatal fail_fast res)
        (λ h. (s.0, settle_all-Passed js (r.0).forwards t.1 s.1))
        (λ h. run_batch-Spent fail_fast tr forward js (if r.1 then suc n else n) r.0 t.1 s)

  batch-nil : (fs : Table) → All IsPassed fs → batch ss tried fs ≡ []
  unfolding batch
  batch-nil [] k = refl
  batch-nil (f ∷ fs) k = rw k.0 (batch-nil fs k.1)

-- A batch leaves nothing to take: what it took is tried, or a binder's.
claim_all-Passed :
    (ss : List Sess) (tried more : List ℕ) (fs : Table)
    → All (λ f. rebinds ss (more ++ tried) f ≡ false) (claim_all ss tried fs)
unfolding claim_all
claim_all-Passed ss tried more [] = tt
claim_all-Passed ss tried more (f ∷ fs) = (
  if_rule (λ x. rebinds ss (more ++ tried) x ≡ false) (rebinds ss tried f) (λ h. ground arith)
      (λ h. passed_still (member-append_right f.id more tried) h),
  claim_all-Passed ss tried more fs,
)
  where
    passed_still :
        (member f.id tried ≡ true → member f.id (more ++ tried) ≡ true)
        → rebinds ss tried f ≡ false
        → rebinds ss (more ++ tried) f ≡ false
    passed_still up h = elim (Bool-cases (member f.id tried)) [
      | inl k ↦ let known = up k in ground arith
      | inr k ↦ ground arith
    ]

members_alone : (js : List Job) → All (λ j. member j.ref.id (ids js) ≡ true) js
members_alone [] = tt
members_alone (j ∷ js) = (
  rw (==_refl j.ref.id) refl,
  All-map (λ k. member k.ref.id (ids js) ≡ true) (λ k. member k.ref.id (ids (j ∷ js)) ≡ true) js
      (λ k h. ground arith) (members_alone js),
)

members : (js : List Job) (tried : List ℕ) → All (λ j. member j.ref.id (ids js ++ tried) ≡ true) js
members js tried =
    All-map (λ j. member j.ref.id (ids js) ≡ true) (λ j. member j.ref.id (ids js ++ tried) ≡ true)
      js (λ j h. member-append_left j.ref.id (ids js) tried h) (members_alone js)

abbrev pub Returns {ℓ} : {A : Type ℓ} → Option A → Type ℓ
Returns {A = A} o = (r : A) × (o ≡ some r)

-- A round that finds nothing is the last.
pub rounds-last :
    (fuel : ℕ) (fail_fast : Bool) (tr : Transport) (forward : Forwarder) (tried : List ℕ) (n : ℕ)
    (d : Daemon)
    → batch d.sessions tried d.forwards ≡ []
    → rebind_rounds (suc fuel) fail_fast tr forward tried n d
      ≡ some (record { daemon = d; count = n; finished = true })
unfolding rebind_rounds
rounds-last fuel fail_fast tr forward tried n d e = rw e refl

-- The state after the first round, which is handed to the second.
abbrev pub first_round : Bool → Transport → Forwarder → Daemon → Rebound
first_round fail_fast tr forward d =
    run_batch fail_fast tr forward (batch d.sessions [] d.forwards) 0
      (record d { forwards = claim_all d.sessions [] d.forwards })

pub second_batch-nil :
    (fail_fast : Bool) (tr : Transport) (forward : Forwarder) (d : Daemon)
    → let r = (first_round fail_fast tr forward d).daemon in
      batch r.sessions (ids (batch d.sessions [] d.forwards) ++ []) r.forwards ≡ []
second_batch-nil fail_fast tr forward d =
    let js = batch d.sessions [] d.forwards in
    let r = first_round fail_fast tr forward d in
    let tried = ids js ++ [] in
    let s =
      run_batch-Spent d.sessions tried fail_fast tr forward js 0
        (record d { forwards = claim_all d.sessions [] d.forwards }) (members js [])
        (refl, claim_all-Passed d.sessions [] (ids js) d.forwards) in
    subst (λ x. batch x tried (r.daemon).forwards ≡ []) (sym s.0)
      (batch-nil d.sessions tried (r.daemon).forwards s.1)

-- A pass of rebindPending that runs alone, of restore or of the retry ticker, ends within two
-- rounds, whatever the transport answers.
pub rebind_pending-ends :
    (fail_fast : Bool) (tr : Transport) (forward : Forwarder) (d : Daemon)
    → Returns (rebind_pending fail_fast tr forward d)
unfolding rebind_pending rebind_rounds
rebind_pending-ends fail_fast tr forward d =
    let js = batch d.sessions [] d.forwards in
    let r = first_round fail_fast tr forward d in
    if_rule Returns (is_empty js) (λ h. (_, refl))
      (λ h.
        if_rule Returns r.finished
          (λ k. (
            _,
            rounds-last 0 fail_fast tr forward (ids js ++ []) r.count r.daemon
                (second_batch-nil fail_fast tr forward d),
          ))
          (λ k. (r, refl)))
