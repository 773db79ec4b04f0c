-- ===== src/Session/Rebind/Carries.antt =====
-- A pass of `rebindPending`, and `restore` and `retryPending` on it, leave the daemon's transport.
use devvm.Prelude.{
  ℕ, zero, suc, Bool, true, false, ◌≡◌, refl, ap, subst, if◌then◌else◌, List, [], ◌∷◌, ◌++◌, Option,
  none, some, if_rule, is_empty, Bool-cases, inl, inr,
}
use devvm.Session.Fwd.{Fwd, Closer}
use devvm.Session.Table.{held}
use devvm.Session.Bind.{Forwarder, BindRes, bound, unbound, bind}
use devvm.Session.Daemon.{Transport, Daemon, up, is_up, settle, expire_ttl}
use devvm.Session.Add.Binding.{adopt, adopt_into, adoptable}
use devvm.Session.Rebind.{
  Job, ids, claim_all, batch, Rebound, job_result, fatal, run_batch, rebind_rounds, rebind_pending,
  restore, restored, retry_pending,
}
use devvm.Session.Rebind.Ends.{rebind_pending-ends}

module _ (o : Option Transport) where
  adopt_into-tr :
      (x : Option Fwd) (h : ℕ) (c : Closer) (b : Bool) (d : Daemon)
      → d.tr ≡ o
      → (adopt_into x h c b d).0.tr ≡ o
  unfolding adopt_into
  adopt_into-tr none h c b d e = e
  adopt_into-tr (some f) h c b d e = e

  job_result-tr :
      (t : Transport) (j : Job) (res : BindRes) (d : Daemon)
      → d.tr ≡ o
      → (job_result t j res d).0.tr ≡ o
  unfolding job_result adopt
  job_result-tr t j (unbound x) d e = e
  job_result-tr t j (bound h c b) d e =
      let s = record d { forwards = settle j.ref d.forwards } in
      adopt_into-tr (adoptable t.id (held j.ref s.forwards) s) h c j.exact s e

  run_batch-tr :
      (fail_fast : Bool) (t : Transport) (forward : Forwarder) (js : List Job) (n : ℕ) (d : Daemon)
      → d.tr ≡ o
      → (run_batch fail_fast t forward js n d).daemon.tr ≡ o
  unfolding run_batch
  run_batch-tr fail_fast t forward [] n d e = e
  run_batch-tr fail_fast t forward (j ∷ js) n d e =
      let res = bind (some forward) j.host j.ref.guest j.exact in
      let r = job_result t j res d in
      let s = job_result-tr t j res d e in
      if_rule (λ (x : Rebound). (x.daemon).tr ≡ o) (fatal fail_fast res) (λ h. s)
        (λ h. run_batch-tr fail_fast t forward js (if r.1 then suc n else n) r.0 s)

  -- A pass leaves the daemon's transport, if it comes to its end.
  abbrev HasKept : Option Rebound → Type 0
  HasKept none = Unit {0}
  HasKept (some r) = (r.daemon).tr ≡ o

  rebind_rounds-HasKept :
      (fuel : ℕ) (fail_fast : Bool) (t : Transport) (forward : Forwarder) (tried : List ℕ) (n : ℕ)
      (d : Daemon)
      → d.tr ≡ o
      → HasKept (rebind_rounds fuel fail_fast t forward tried n d)
  unfolding rebind_rounds
  rebind_rounds-HasKept zero fail_fast t forward tried n d e = tt
  rebind_rounds-HasKept (suc fuel) fail_fast t forward tried n d e =
      let js = batch d.sessions tried d.forwards in
      let claimed = record d { forwards = claim_all d.sessions tried d.forwards } in
      let r = run_batch fail_fast t forward js n claimed in
      let s = run_batch-tr fail_fast t forward js n claimed e in
      if_rule HasKept (is_empty js) (λ h. e)
        (λ h.
          if_rule HasKept r.finished
            (λ k.
              rebind_rounds-HasKept fuel fail_fast t forward (ids js ++ tried) r.count r.daemon s)
            (λ k. s))

-- A pass comes to its end, and leaves the daemon's transport.
pub rebind_pending-tr :
    (fail_fast : Bool) (t : Transport) (forward : Forwarder) (d : Daemon)
    → (r : Rebound) × (rebind_pending fail_fast t forward d ≡ some r) × ((r.daemon).tr ≡ d.tr)
unfolding rebind_pending
rebind_pending-tr fail_fast t forward d =
    let (r, back) = rebind_pending-ends fail_fast t forward d in
    (
      r,
      back,
      subst (HasKept d.tr) back (rebind_rounds-HasKept d.tr 2 fail_fast t forward [] 0 d refl),
    )

abbrev pub IsRestored : Transport → Daemon × Bool → Type 0
IsRestored t (e, true) = (e.tr ≡ some t) × (e.state ≡ up)
IsRestored t (e, false) = e.tr ≡ some t

restored-IsRestored :
    (t : Transport) (r : Rebound) → (r.daemon).tr ≡ some t → IsRestored t (restored r)
unfolding restored
restored-IsRestored t r e = elim (Bool-cases r.finished) [ inl k ↦ rw k (e, refl) | inr k ↦ rw k e ]

-- A restore comes to its end; the daemon has the transport that it was given, and is up if it
-- succeeded.
pub restore-IsRestored :
    (now : ℕ) (t : Transport) (forward : Forwarder) (d : Daemon)
    → (x : Daemon × Bool) × (restore now t forward d ≡ some x) × IsRestored t x
unfolding restore
restore-IsRestored now t forward d =
    let e = record (expire_ttl now d) { tr = some t } in
    let (r, back, at) = rebind_pending-tr true t forward e in
    (
      restored r,
      ap (λ (o : Option Rebound). elim o [ none ↦ none | some x ↦ some (restored x) ]) back,
      restored-IsRestored t r at,
    )

-- A pass of the ticker comes to its end.
pub retry_pending-tr :
    (forward : Forwarder) (d : Daemon)
    → (e : Daemon) × (retry_pending forward d ≡ some e) × (e.tr ≡ d.tr)
unfolding retry_pending
retry_pending-tr forward d = pass (if is_up d.state then d.tr else none)
  where
    pass :
        (o : Option Transport)
        → (e : Daemon) × (elim o [
          | none ↦ some d
          | some t ↦ elim (rebind_pending false t forward d) [
            | none ↦ none
            | some r ↦ some r.daemon
          ]
        ]
            ≡ some e)
          × (e.tr ≡ d.tr)
    pass none = (d, refl, refl)
    pass (some t) =
        let (r, back, at) = rebind_pending-tr false t forward d in (r.daemon, rw back refl, at)
