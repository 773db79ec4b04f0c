-- ===== src/Session/Bridge/Exact.antt =====
-- An exact add, and with it the bridge's bind for a redirect, gets the port asked for or none, where
-- nobody else binds its slot.
use devvm.Prelude.{
  ℕ, ◌≡◌, inl, inr, refl, subst, ap, Bool, true, false, not, ◌&&◌, ◌||◌, Option, none, some, arith,
  ◌==◌, if◌then◌else◌, if_rule, Bool-cases,
}
use devvm.Session.Fwd.{Closer, Fwd, is_none, unheld}
use devvm.Session.Table.{Table, find, Ref, held}
use devvm.Session.Bind.{
  Forwarder, Outcome, opened, refused, port_busy, hub_refused, broken, bind, bind_exact, BindErr,
  in_use, forward_failed,
}
use devvm.Session.Daemon.Settle.{after_settle, held-settle}
use devvm.Session.Daemon.{Transport, Sess, Daemon, is_up, settle}
use devvm.Session.Add.{
  AddReq, Answer, added_ok, add_failed, AddStep, answered, waiting, claimed, Claim, add_section,
  add_at, add_new, add_old, usable, orphan, ephemeral_room,
}
use devvm.Session.Add.Binding.{
  same_transport, adopt_into, adopt, adoptable, bind_lost, bind_error, outrun, bind_slot, Meanwhile,
  reread, finish_add, add_with,
}
use devvm.Session.Bridge.{
  bridge_request, bridge_answer, bridge_done, bridge_bind, Bridged, bridged, forward_v6,
}

-- An answer that is not pending gives the port `p`.
abbrev pub IsAt : ℕ → Answer → Type 0
IsAt p (added_ok r) = r.pending ≡ false → r.host ≡ p
IsAt p (add_failed e) = Unit

-- Whoever stands at the reference is not bound.
abbrev pub IsUnbound : Option Fwd → Type 0
IsUnbound none = Unit
IsUnbound (some f) = f.closer ≡ none

after_settle-IsUnbound : (o : Option Fwd) → IsUnbound o → IsUnbound (after_settle o)
unfolding after_settle
after_settle-IsUnbound none u = tt
after_settle-IsUnbound (some f) u = if_rule IsUnbound (unheld f) (λ e. tt) (λ e. u)

held-settle-IsUnbound :
    (r : Ref) (fs : Table) → IsUnbound (held r fs) → IsUnbound (held r (settle r fs))
held-settle-IsUnbound r fs u = rw (held-settle r fs) (after_settle-IsUnbound (held r fs) u)

-- Nobody binds the slot while it is not bound.
abbrev pub LeavesUnbound : Ref → (Daemon → Daemon) → Type 0
LeavesUnbound r others =
    (d : Daemon) → IsUnbound (held r d.forwards) → IsUnbound (held r (others d).forwards)

outrun-IsAt : (p : ℕ) (c : Claim) (o : Option Fwd) → IsUnbound o → IsAt p (outrun c o)
unfolding outrun
outrun-IsAt p c none u = tt
outrun-IsAt p c (some f) u = λ e. let e' = rw u at e in absurd (cc)

-- The end of a section: an answer at `p`, or a slot to be read again that is not bound.
abbrev IsEndAt : ℕ → Claim → Daemon × Option Answer → Type 0
IsEndAt p c (d, some a) = IsAt p a
IsEndAt p c (d, none) = IsUnbound (held c.ref d.forwards)

bind_lost-IsAt :
    (p : ℕ) (c : Claim) (dead : Bool) (e : BindErr) (o : Option Fwd) (d : Daemon)
    → IsAt p (bind_lost c dead e o d).1
unfolding bind_lost
bind_lost-IsAt p c dead e none d = tt
bind_lost-IsAt p c dead e (some f) d =
    let pending = is_none f.closer in
    elim (Bool-cases
      (pending && (not (same_transport c.transport d.tr) || not (is_up d.state) || dead))) [
        | inl h ↦ rw h (λ k. absurd (cc))
        | inr h ↦ elim (Bool-cases (pending && c.added)) [
          | inl k ↦ rw (h, k) tt
          | inr k ↦ rw (h, k) tt
        ]
      ]

bind_error-IsAt :
    (p : ℕ) (c : Claim) (dead : Bool) (e : BindErr) (d : Daemon) → IsAt p (bind_error c dead e d).1
unfolding bind_error
bind_error-IsAt p c dead e d =
    let d' = record d { forwards = settle c.ref d.forwards } in
    bind_lost-IsAt p c dead e (held c.ref d'.forwards) d'

-- A bind that got the port `p`, for a slot that nothing was bound to.
adopt_into-IsEndAt :
    (p : ℕ) (c : Claim) (o : Option Fwd) (cl : Closer) (b : Bool) (d : Daemon)
    → IsUnbound (held c.ref d.forwards)
    → let r = adopt_into o p cl c.exact d in
      IsEndAt p c (
        r.0,
        (if r.1
            then some (added_ok (record { host = p; bumped = b; pending = false; added = c.added }))
            else none),
      )
unfolding adopt_into
adopt_into-IsEndAt p c none cl b d u = u
adopt_into-IsEndAt p c (some f) cl b d u = λ e. refl

bind_slot-IsEndAt :
    (p : ℕ) (c : Claim) (dead : Bool) (o : Outcome) (d : Daemon)
    → IsUnbound (held c.ref d.forwards)
    → IsEndAt p c (bind_slot c dead (bind_exact p o) d)
unfolding bind_slot bind_exact adopt
bind_slot-IsEndAt p c dead (opened cl) d u =
    let e = record d { forwards = settle c.ref d.forwards } in
    adopt_into-IsEndAt p c (adoptable c.transport (held c.ref e.forwards) e) cl false e
      (held-settle-IsUnbound c.ref d.forwards u)
bind_slot-IsEndAt p c dead (refused port_busy) d u = bind_error-IsAt p c dead (in_use p) d
bind_slot-IsEndAt p c dead (refused hub_refused) d u =
    bind_error-IsAt p c dead (forward_failed hub_refused) d
bind_slot-IsEndAt p c dead (refused (broken m)) d u =
    bind_error-IsAt p c dead (forward_failed (broken m)) d

reread-IsAt :
    (p : ℕ) (m : Meanwhile) (c : Claim) (r : Daemon × Option Answer)
    → LeavesUnbound c.ref m.refused
    → IsEndAt p c r
    → IsAt p (reread m c r).1
unfolding reread
reread-IsAt p m c (d, some a) h k = k
reread-IsAt p m c (d, none) h k = outrun-IsAt p c (held c.ref (m.refused d).forwards) (h d k)

-- The first section of an add for the port `p` alone: an answer at `p`, or an exact claim of `p`.
abbrev IsStepAt : ℕ → Daemon × AddStep → Type 0
IsStepAt p (d, answered a) = IsAt p a
IsStepAt p (d, waiting i) = Unit
IsStepAt p (d, claimed c) = (c.exact ≡ true) × (c.target ≡ p)

add_new-IsStepAt :
    (q : AddReq) (tr : Option Transport) (d : Daemon)
    → q.exact ≡ true
    → IsStepAt q.pref (add_new q tr d)
unfolding add_new
add_new-IsStepAt q none d e = λ h. refl
add_new-IsStepAt q (some tr) d e = (e, refl)

add_old-IsStepAt :
    (q : AddReq) (f : Fwd) (cl : Option Closer) (tr : Option Transport) (d : Daemon)
    → f.closer ≡ cl
    → q.exact ≡ true
    → f.host ≡ q.pref
    → IsStepAt q.pref (add_old q f cl tr d)
unfolding add_old
add_old-IsStepAt q f (some c) tr d k e h = λ x. h
add_old-IsStepAt q f none none d k e h = λ x. h
add_old-IsStepAt q f none (some tr) d k e h = (rw e (ground arith), ground (arith, h))

add_at-IsStepAt :
    (q : AddReq) (o : Option Fwd) (d : Daemon) → q.exact ≡ true → IsStepAt q.pref (add_at q o d)
unfolding add_at
add_at-IsStepAt q none d e =
    if_rule (IsStepAt q.pref) (q.capped && not (ephemeral_room d)) (λ h. tt)
      (λ h. add_new-IsStepAt q (usable d) d e)
add_at-IsStepAt q (some f) d e =
    if_rule (IsStepAt q.pref) f.binding (λ h. tt)
      (λ h.
        if_rule (IsStepAt q.pref) (q.exact && not (f.host == q.pref)) (λ k. tt)
          (λ k. add_old-IsStepAt q f f.closer (usable d) d refl e (ground arith)))

add_section-IsStepAt :
    (q : AddReq) (d : Daemon) → q.exact ≡ true → IsStepAt q.pref (add_section q d)
unfolding add_section
add_section-IsStepAt q d e =
    if_rule (IsStepAt q.pref) (orphan d.sessions q.own) (λ h. tt)
      (λ h. add_at-IsStepAt q (find q.guest d.forwards) d e)

bind-exact :
    (forward : Forwarder) (p g : ℕ) {b : Bool}
    → b ≡ true
    → bind (some forward) p g b ≡ bind_exact p (forward p g)
unfolding bind
bind-exact forward p g e = rw e refl

-- What holds of the claim, where the first section made one, and of the daemon after it.
abbrev pub AtClaim : (Claim → Daemon → Type 0) → Daemon × AddStep → Type 0
AtClaim P (d, answered a) = Unit
AtClaim P (d, waiting i) = Unit
AtClaim P (d, claimed c) = P c d

-- The slot is not bound when the bind is over, and nobody binds it behind a refused adoption.
abbrev pub IsOrderly : Meanwhile → Daemon × AddStep → Type 0
IsOrderly m =
    AtClaim (λ c d. IsUnbound (held c.ref (m.binding d).forwards) × LeavesUnbound c.ref m.refused)

module _ (forward : Forwarder) (dead : Bool) (m : Meanwhile) where
  finish_add-IsAt :
      (p : ℕ) (s : Daemon × AddStep) {e : Daemon} {a : Answer}
      → IsOrderly m s
      → IsStepAt p s
      → finish_add forward dead m s ≡ some (e, a)
      → IsAt p a
  unfolding finish_add
  finish_add-IsAt p (d, answered x) {e} {a} o h k = subst (IsAt p) {x = x} {y = a} (cc) h
  finish_add-IsAt p (d, waiting i) o h k = absurd (cc)
  finish_add-IsAt p (d, claimed c) {e} {a} o h k =
      let k' = rw (bind-exact forward c.target c.ref.guest h.0) at k in
      let out = forward c.target c.ref.guest in
      let r = bind_slot c dead (bind_exact c.target out) (m.binding d) in
      let end = bind_slot-IsEndAt c.target c dead out (m.binding d) o.0 in
      let at = reread-IsAt c.target m c r o.1 end in
      subst (λ n. IsAt n a) h.1
        (subst (λ (r : Daemon × Answer). IsAt c.target r.1) {x = reread m c r} {y = (e, a)} (cc) at)

bridge_answer-exact :
    (port : ℕ) (v6 : Bool) (sub : Sess) (now : ℕ) (m : Meanwhile) (d : Daemon) (a : Answer)
    {host : ℕ}
    → IsAt port a
    → (bridge_answer port true v6 sub now m d a).1 ≡ bridged host
    → host ≡ port
unfolding bridge_answer
bridge_answer-exact port v6 sub now m d (add_failed e) at h = absurd (cc)
bridge_answer-exact port v6 sub now m d (added_ok r) at h = elim (Bool-cases r.pending) [
  | inl k ↦ let h' = rw k at h in absurd (cc)
  | inr k ↦ elim (Bool-cases (v6 && not (forward_v6 port (m.answered d)))) [
    | inl n ↦ let h' = rw (k, n) at h in absurd (cc)
    | inr n ↦ let h' = rw (k, n) at h in let i = at k in cc
  ]
]

bridge_done-exact :
    (port : ℕ) (v6 : Bool) (sub : Sess) (now : ℕ) (m : Meanwhile) (o : Option (Daemon × Answer))
    {e : Daemon} {host : ℕ}
    → ((d : Daemon) (a : Answer) → o ≡ some (d, a) → IsAt port a)
    → bridge_done port true v6 sub now m o ≡ some (e, bridged host)
    → host ≡ port
unfolding bridge_done
bridge_done-exact port v6 sub now m none at h = absurd (cc)
bridge_done-exact port v6 sub now m (some (d, a)) {e} {host} at h =
    bridge_answer-exact port v6 sub now m d a (at d a refl) (snd_of h)
  where
    snd_of : {x y : Daemon × Bridged} → some x ≡ some y → x.1 ≡ y.1
    snd_of {x} {y} k = ap (λ (z : Daemon × Bridged). z.1) {x = x} {y = y} (cc)

-- The bind for a redirect, under the conditions on its own slot.
pub bridge_bind_orderly :
    (port : ℕ) (v6 : Bool) (sub : Sess) (now : ℕ) (forward : Forwarder) (dead : Bool)
    (m : Meanwhile) (d : Daemon) {e : Daemon} {host : ℕ}
    → IsOrderly m (add_section (bridge_request port true now sub) d)
    → bridge_bind port true v6 sub now forward dead m d ≡ some (e, bridged host)
    → host ≡ port
unfolding bridge_bind bridge_request add_with
bridge_bind_orderly port v6 sub now forward dead m d orderly =
    let q = bridge_request port true now sub in
    bridge_done-exact port v6 sub now m (add_with q forward dead m d) (λ x a k.
      finish_add-IsAt forward dead m port (add_section q d) orderly (add_section-IsStepAt q d refl)
        k)
