-- ===== src/Session/Rebind/Restore.antt =====
-- A reconnect over a transport that serves.
use devvm.Prelude.{
  nil_of_empty, ℕ, Bool, true, false, ◌≡◌, inl, inr, refl, sym, ◌∙◌, ap, subst, List, [], ◌∷◌, ◌++◌,
  Option, none, some, arith, ◌==◌, if_rule, Bool-cases, Option-cases, All, is_empty,
}
use devvm.Session.Owner.{Owner, Owners}
use devvm.Session.Fwd.{Fwd, Closer, unheld}
use devvm.Session.Table.{Table, find}
use devvm.Session.Table.Rules.{All-find}
use devvm.Session.Bind.{Forwarder}
use devvm.Session.Daemon.{
  Transport, Sess, Daemon, drop_owners, drop_matching, expire_ttl, expired, released, up,
}
use devvm.Session.Daemon.Unique.{rejected}
use devvm.Session.Rebind.{
  job_of, ids, claim_all, batch, rebinds, Rebound, rebind_rounds, rebind_pending, restore, restored,
}
use devvm.Session.Rebind.Ends.{rounds-last, first_round, second_batch-nil}
use devvm.Session.Rebind.Slots.{owners_of, owners_at}
use devvm.Session.Rebind.Live.{
  IsServing, IsServed, IsHeld, InHand, Passing, batch-InHand, run_batch-Passing, All-batch,
  All-claim_all,
}

claim_all-owners :
    (g : ℕ) (ss : List Sess) (tried : List ℕ) (fs : Table)
    → owners_at g (claim_all ss tried fs) ≡ owners_at g fs
unfolding claim_all find
claim_all-owners g ss tried [] = refl
claim_all-owners g ss tried (f ∷ fs) =
    let rest = claim_all-owners g ss tried fs in
    elim (Bool-cases (f.guest == g)) [
      | inl hit ↦
          if_rule (λ (x : Fwd). owners_at g (x ∷ claim_all ss tried fs) ≡ owners_at g (f ∷ fs))
            (rebinds ss tried f) (λ e. rw hit refl) (λ e. rw hit refl)
      | inr miss ↦
          if_rule (λ (x : Fwd). owners_at g (x ∷ claim_all ss tried fs) ≡ owners_at g (f ∷ fs))
            (rebinds ss tried f) (λ e. rw miss rest) (λ e. rw miss rest)
    ]

-- A pass over a table in which every forward has an owner and none a binder.
rebind_pending-serves :
    (fail_fast : Bool) (tr : Transport) (forward : Forwarder) (d : Daemon)
    → d.tr ≡ some tr
    → All (λ f. f.binding ≡ false) d.forwards
    → All (λ f. IsServed forward (job_of f)) d.forwards
    → IsHeld d.forwards
    → (r : Rebound) × (rebind_pending fail_fast tr forward d ≡ some r)
      × (r.finished ≡ true)
      × Passing d.sessions tr d.forwards [] r.daemon
unfolding rebind_pending rebind_rounds
rebind_pending-serves fail_fast tr forward d at idle served held_all =
    let js = batch d.sessions [] d.forwards in
    let hand = batch-InHand d.sessions d.forwards idle in
    elim (Bool-cases (is_empty js)) [
      | inl h ↦
          let hand' = subst (λ x. All (InHand d.sessions x) d.forwards) (nil_of_empty js h) hand in
          (
            record { daemon = d; count = 0; finished = true },
            rw h refl,
            refl,
            (
              at,
              refl,
              λ g x. All-find (InHand d.sessions []) g d.forwards {f = x} hand',
              λ g. refl,
            ),
          )
      | inr h ↦
          let claimed = record d { forwards = claim_all d.sessions [] d.forwards } in
          let r = first_round fail_fast tr forward d in
          let (done, p) =
            run_batch-Passing d.sessions tr d.forwards fail_fast forward js 0 claimed held_all
              (All-batch (IsServed forward) d.sessions [] d.forwards served)
              (
                at,
                refl,
                λ g x.
                    All-find (InHand d.sessions js) g claimed.forwards {f = x} (
                      All-claim_all (InHand d.sessions js) d.sessions [] d.forwards (λ f k. k)
                        hand),
                λ g. claim_all-owners g d.sessions [] d.forwards,
              ) in
          (
            record { daemon = r.daemon; count = r.count; finished = true },
            rw (h, done)
                (rounds-last 0 fail_fast tr forward (ids js ++ []) r.count r.daemon
                  (second_batch-nil fail_fast tr forward d)),
            refl,
            p,
          )
    ]

held_idle : (f : Fwd) → f.binding ≡ false → released f ≡ false → unheld f ≡ false
unfolding released
held_idle f idle e = ground arith

module _ (match : Owner → ℕ → Bool) where
  -- What holds of each forward whoever owns it still holds when some owners are dropped.
  All-drop_owners {κ} :
      (P : Fwd → Type κ) (fs : Table)
      → ((f : Fwd) → P f → P (rejected match f))
      → All P fs
      → All P (drop_owners match fs).0
  unfolding drop_owners
  All-drop_owners P [] lift k = tt
  All-drop_owners P (f ∷ fs) lift k =
      if_rule (λ (r : Table × List Closer). All P r.0) (released (rejected match f))
        (λ e. All-drop_owners P fs lift k.1) (λ e. (lift f k.0, All-drop_owners P fs lift k.1))

  drop_owners-held :
      (fs : Table)
      → All (λ f. f.binding ≡ false) fs
      → All (λ f. unheld f ≡ false) (drop_owners match fs).0
  unfolding drop_owners released
  drop_owners-held [] k = tt
  drop_owners-held (f ∷ fs) k =
      if_rule (λ (r : Table × List Closer). All (λ f. unheld f ≡ false) r.0)
        (released (rejected match f)) (λ e. drop_owners-held fs k.1)
        (λ e. (held_idle (rejected match f) k.0 e, drop_owners-held fs k.1))

All-IsHeld : (fs : Table) → All (λ f. unheld f ≡ false) fs → IsHeld fs
All-IsHeld fs k g m e = elim (Option-cases (find g fs)) [
  | inl q ↦ absurd (none-ne-some (sym (ap owners_of q) ∙ e))
  | inr (f, q) ↦
      let own : some f.owners ≡ some m = sym (ap owners_of q) ∙ e in
      let held_f : unheld f ≡ false = All-find (λ f. unheld f ≡ false) g fs {f = f} k q in
      ap is_empty (cc) ∙ held_f
]
  where
    none-ne-some : {m : Owners} → ◌≡◌ {A = Option Owners} none (some m) → ⊥
    none-ne-some e = cc

restore-done :
    (now : ℕ) (tr : Transport) (forward : Forwarder) (d : Daemon) (r : Rebound)
    → rebind_pending true tr forward (record (expire_ttl now d) { tr = some tr }) ≡ some r
    → r.finished ≡ true
    → restore now tr forward d ≡ some (record r.daemon { state = up }, true)
unfolding restore restored
restore-done now t forward d r back done =
    ap (λ (o : Option Rebound). elim o [ none ↦ none | some x ↦ some (restored x) ]) back
    ∙ rw done refl

serving : (ss ss' : List Sess) (f : Fwd) → ss' ≡ ss → InHand ss [] f → IsServing ss' f
serving ss ss' f same (inl k) = subst (λ x. IsServing x f) (sym same) k
serving ss ss' f same (inr w) = elim w [ ]

-- A reconnect works: where no binder is at work, and the transport opens a host port for every
-- forward, by its bumps or, if exact, its own, restore ends and succeeds, and the daemon is up;
-- every forward that an expired ttl did not drop is still there, with its owners, and each is
-- bound, except those that none but relay sessions hold.
pub restore-serves :
    (now : ℕ) (tr : Transport) (forward : Forwarder) (d : Daemon)
    → All (λ f. f.binding ≡ false) d.forwards
    → All (λ f. IsServed forward (job_of f)) d.forwards
    → (e : Daemon) × (restore now tr forward d ≡ some (e, true))
      × (e.state ≡ up)
      × ((g : ℕ) → owners_at g e.forwards ≡ owners_at g (expire_ttl now d).forwards)
      × ((g : ℕ) (f : Fwd) → find g e.forwards ≡ some f → IsServing e.sessions f)
unfolding expire_ttl drop_matching
restore-serves now t forward d idle served =
    let gone = expired now in
    let e = record (expire_ttl now d) { tr = some t } in
    let (r, back, done, (at, same, hand, own)) =
      rebind_pending-serves true t forward e refl
        (All-drop_owners gone (λ f. f.binding ≡ false) d.forwards (λ f k. k) idle)
        (All-drop_owners gone (λ f. IsServed forward (job_of f)) d.forwards (λ f k. k) served)
        (All-IsHeld e.forwards (drop_owners-held gone d.forwards idle)) in
    (
      record r.daemon { state = up },
      restore-done now t forward d r back done,
      refl,
      own,
      λ g f found. serving e.sessions (r.daemon).sessions f same (hand g f found),
    )
