-- ===== src/Session/Rebind/Live.antt =====
-- A pass of `rebindPending` over a transport that serves binds every forward that it may bind.
use devvm.Prelude.{
  ℕ, Bool, true, false, ◌≡◌, ◌⊎◌, inl, inr, refl, sym, ◌∙◌, ap, List, [], ◌∷◌, Option, none, some,
  ==_refl, if_rule, leb, Bool-cases, All, All-map, is_empty,
}
use devvm.Session.Owner.{Owners}
use devvm.Session.Fwd.{Fwd, Closer, start_binding, is_none}
use devvm.Session.Table.{Table, Ref, ref_of, held, find}
use devvm.Session.Table.Rules.{held-find}
use devvm.Session.Bind.{Forwarder, BindRes, bound, unbound, bind}
use devvm.Session.Daemon.{Transport, Sess, Daemon, settle}
use devvm.Session.Add.Binding.{adopt, adopt_into, adoptable, same_transport}
use devvm.Session.Rebind.Slots.{true-ne-false, adopt-find, owners_of, owners_at, adopt-owners}
use devvm.Session.Rebind.{
  Job, job_of, rebinds, claim_all, batch, job_result, fatal, run_batch, relay_only, insert_job,
}

-- The job of a batch that is left for a slot.
abbrev pub Waits : Ref → List Job → Type 0
Waits r [] = ⊥
Waits r (j ∷ js) = (j.ref ≡ r) ⊎ Waits r js

abbrev is_bound : BindRes → Bool
is_bound (bound h c b) = true
is_bound (unbound e) = false

BindRes-bound :
    (r : BindRes) → is_bound r ≡ true → (h : ℕ) × (c : Closer) × (b : Bool) × (r ≡ bound h c b)
BindRes-bound (bound h c b) k = (h, c, b, refl)
BindRes-bound (unbound e) k = absurd (cc)

Waits-insert_job :
    (r : Ref) (j : Job) (js : List Job) → Waits r (j ∷ js) → Waits r (insert_job j js)
unfolding insert_job
Waits-insert_job r j [] w = w
Waits-insert_job r j (k ∷ ks) w =
    if_rule (Waits r) (leb j.ref.guest k.ref.guest) (λ e. w)
      (λ e. later (Waits-insert_job r j ks) w)
  where
    later :
        (Waits r (j ∷ ks) → Waits r (insert_job j ks))
        → Waits r (j ∷ k ∷ ks)
        → Waits r (k ∷ insert_job j ks)
    later behind (inl q) = inr (behind (inl q))
    later behind (inr (inl q)) = inl q
    later behind (inr (inr q)) = inr (behind (inr q))

All-insert_job {κ} :
    (P : Job → Type κ) (j : Job) (js : List Job) → P j → All P js → All P (insert_job j js)
unfolding insert_job
All-insert_job P j [] h k = (h, tt)
All-insert_job P j (x ∷ xs) h k =
    if_rule (All P) (leb j.ref.guest x.ref.guest) (λ e. (h, k))
      (λ e. (k.0, All-insert_job P j xs h k.1))

pub All-batch {κ} :
    (P : Job → Type κ) (ss : List Sess) (tried : List ℕ) (fs : Table)
    → All (λ f. P (job_of f)) fs
    → All P (batch ss tried fs)
unfolding batch
All-batch P ss tried [] k = tt
All-batch P ss tried (f ∷ fs) k =
    let rest = All-batch P ss tried fs k.1 in
    if_rule (All P) (rebinds ss tried f)
      (λ e. All-insert_job P (job_of f) (batch ss tried fs) k.0 rest) (λ e. rest)

pub All-claim_all {κ} :
    (P : Fwd → Type κ) (ss : List Sess) (tried : List ℕ) (fs : Table)
    → ((f : Fwd) → P f → P (start_binding f))
    → All P fs
    → All P (claim_all ss tried fs)
unfolding claim_all
All-claim_all P ss tried [] lift k = tt
All-claim_all P ss tried (f ∷ fs) lift k = (
  if_rule P (rebinds ss tried f) (λ e. lift f k.0) (λ e. k.0),
  All-claim_all P ss tried fs lift k.1,
)

module _ (ss : List Sess) where
  -- The forward serves, or a pass leaves it pending: no owner but relay sessions holds it.
  abbrev pub IsServing : Fwd → Type 0
  IsServing f = (is_none f.closer ≡ false) ⊎ (relay_only ss f ≡ true)

  abbrev pub InHand : List Job → Fwd → Type 0
  InHand js f = IsServing f ⊎ Waits (ref_of f) js

  pub batch-InHand :
      (fs : Table) → All (λ f. f.binding ≡ false) fs → All (InHand (batch ss [] fs)) fs
  unfolding batch
  batch-InHand [] k = tt
  batch-InHand (f ∷ fs) k =
      if_rule (λ js. All (InHand js) (f ∷ fs)) (rebinds ss [] f)
        (λ e. (
          inr (Waits-insert_job (ref_of f) (job_of f) (batch ss [] fs) (inl refl)),
          All-map (InHand (batch ss [] fs)) (InHand (insert_job (job_of f) (batch ss [] fs))) fs
              (λ x h. more x h) (batch-InHand fs k.1),
        ))
        (λ e. (inl (passed e), batch-InHand fs k.1))
    where
      more :
          (x : Fwd) → InHand (batch ss [] fs) x → InHand (insert_job (job_of f) (batch ss [] fs)) x
      more x (inl s) = inl s
      more x (inr w) = inr (Waits-insert_job (ref_of x) (job_of f) (batch ss [] fs) (inr w))

      passed : rebinds ss [] f ≡ false → IsServing f
      passed e = elim (Bool-cases (is_none f.closer)) [
        | inr c ↦ inl c
        | inl c ↦ elim (Bool-cases (relay_only ss f)) [
          | inl r ↦ inr r
          | inr r ↦
              let idle : f.binding ≡ false = k.0 in
              absurd (true-ne-false (sym (rw (c, idle, r) refl) ∙ e))
        ]
      ]

-- The transport opens a port for what the job asks.
abbrev pub IsServed : Forwarder → Job → Type 0
IsServed forward j = is_bound (bind (some forward) j.host j.ref.guest j.exact) ≡ true

abbrev pub IsHeld : Table → Type 0
IsHeld fs = (g : ℕ) (m : Owners) → owners_at g fs ≡ some m → is_empty m ≡ false

module _ (ss : List Sess) (tr : Transport) (fs : Table) where
  -- In the middle of a pass that began with the table `fs`.
  abbrev pub Passing : List Job → Daemon → Type 0
  Passing js d =
      (d.tr ≡ some tr)
      × (d.sessions ≡ ss)
      × ((g : ℕ) (x : Fwd) → find g d.forwards ≡ some x → InHand ss js x)
      × ((g : ℕ) → owners_at g d.forwards ≡ owners_at g fs)

  adopt-still :
      (o : Option Fwd) (h : ℕ) (c : Closer) (b : Bool) (d : Daemon)
      → (adopt_into o h c b d).0.tr ≡ d.tr × ((adopt_into o h c b d).0.sessions ≡ d.sessions)
  unfolding adopt_into
  adopt-still none h c b d = (refl, refl)
  adopt-still (some f) h c b d = (refl, refl)

  settled_job :
      (j : Job) (js : List Job) (x : Fwd)
      → (ref_of x ≡ j.ref → ⊥)
      → InHand ss (j ∷ js) x
      → InHand ss js x
  settled_job j js x apart (inl s) = inl s
  settled_job j js x apart (inr (inl q)) = absurd (apart (sym q))
  settled_job j js x apart (inr (inr w)) = inr w

  adopt-Passing :
      (j : Job) (js : List Job) (h : ℕ) (c : Closer) (d : Daemon)
      → IsHeld fs
      → Passing (j ∷ js) d
      → Passing js (adopt tr.id j.ref h c j.exact d).0
  unfolding adopt
  adopt-Passing j js h c d held_all (at, same, hand, own) =
      let e = record d { forwards = settle j.ref d.forwards } in
      let (still, still') = adopt-still (adoptable tr.id (held j.ref e.forwards) e) h c j.exact e in
      let carried : same_transport tr.id d.tr ≡ true = rw (at, ==_refl tr.id) refl in
      (
        still ∙ at,
        still' ∙ same,
        λ g x found. elim (adopt-find tr.id j.ref h c j.exact d g {x = x} carried found) [
          | inl closed ↦ inl (inl closed)
          | inr (found', apart) ↦ settled_job j js x apart (hand g x found')
        ],
        λ g.
            adopt-owners g tr.id j.ref h c j.exact d (λ f k.
              held_all j.ref.guest f.owners
                (sym (own j.ref.guest) ∙ ap owners_of (held-find j.ref d.forwards {f = f} k).0))
            ∙ own g,
      )

  pub run_batch-Passing :
      (fail_fast : Bool) (forward : Forwarder) (js : List Job) (n : ℕ) (d : Daemon)
      → IsHeld fs
      → All (IsServed forward) js
      → Passing js d
      → ((run_batch fail_fast tr forward js n d).finished ≡ true)
        × Passing [] (run_batch fail_fast tr forward js n d).daemon
  unfolding run_batch
  run_batch-Passing fail_fast forward [] n d held_all k p = (refl, p)
  run_batch-Passing fail_fast forward (j ∷ js) n d held_all k p =
      let (h, c, b, e) = BindRes-bound (bind (some forward) j.host j.ref.guest j.exact) k.0 in
      rw (e, fatal, job_result)
        (run_batch-Passing fail_fast forward js _ (adopt tr.id j.ref h c j.exact d).0 held_all k.1
          (adopt-Passing j js h c d held_all p))
