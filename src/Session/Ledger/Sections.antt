-- ===== src/Session/Ledger/Sections.antt =====
-- What the binders' sections, and the others that only bind, leave of the holds: all of them, but for
-- the hold of an add that found no port.
use devvm.Prelude.{
  ℕ, Bool, true, not, ◌&&◌, ◌||◌, ◌≡◌, ◌⊎◌, inl, inr, refl, sym, ◌∙◌, ap, List, [], ◌∷◌, subst,
  Option, none, some, ◌==◌, if◌then◌else◌, if_rule, arith, Bool-cases,
}
use devvm.Session.Owner.{Owner, same, expiry_of, delete_owner}
use devvm.Session.Fwd.{Fwd, Closer, is_none, unheld, finish_binding}
use devvm.Session.Table.{Table, Ref, find, put, erase, held}
use devvm.Session.Table.Find.{find-put, find-erase}
use devvm.Session.Table.Rules.{held-find, find-guest, All-held}
use devvm.Session.Bind.{BindRes, bound, unbound, BindErr}
use devvm.Session.Daemon.{Daemon, Sess, settle, settle_held, is_up}
use devvm.Session.Add.{Claim, Answer}
use devvm.Session.Add.Binding.{
  adopt, adopt_into, adoptable, bind_slot, bind_error, bind_lost, same_transport,
}
use devvm.Session.Rebind.{claim_all, rebinds}
use devvm.Session.Rebind.Slots.{held-own_guest}
use devvm.Session.Holding.{holding, held_by, expiry_of-empty, same-eq}
use devvm.Session.Holding.Remove.{holding-put, holding-erase, expiry_of-delete_owner}
use devvm.Session.Owner.Once.{IsOnce, expiry_of-delete_owner_self}
use devvm.Session.System.Sound.{Sound, settle-Sound}
use devvm.Session.System.Keeps.{AllSound}
use devvm.Session.Ledger.{IsWithdrawn}

settle_held-holding :
    (g : ℕ) (o : Owner) (r : Ref) (x : Option Fwd) (fs : Table)
    → held r fs ≡ x
    → holding g o (settle_held x fs) ≡ holding g o fs
unfolding settle_held holding
settle_held-holding g o r none fs h = refl
settle_held-holding g o r (some f) fs h =
    let at : find f.guest fs ≡ some f = held-own_guest r fs {f = f} h in
    if_rule (λ (t : Table). holding g o t ≡ holding g o fs) (unheld f)
      (λ e. holding-erase g f.guest o fs (ap (held_by o) at ∙ expiry_of-empty o f.owners e))
      (λ e. holding-put g o (finish_binding f) fs (sym (ap (held_by o) at)))

pub settle-holding :
    (g : ℕ) (o : Owner) (r : Ref) (fs : Table) → holding g o (settle r fs) ≡ holding g o fs
unfolding settle
settle-holding g o r fs = settle_held-holding g o r (held r fs) fs refl

adopt_into-holding :
    (g : ℕ) (o : Owner) (r : Ref) (t : ℕ) (x : Option Fwd) (h : ℕ) (c : Closer) (b : Bool)
    (d : Daemon)
    → held r d.forwards ≡ x
    → holding g o (adopt_into (adoptable t x d) h c b d).0.forwards ≡ holding g o d.forwards
unfolding adopt_into holding
adopt_into-holding g o r t none h c b d k = refl
adopt_into-holding g o r t (some f) h c b d k =
    let at : find f.guest d.forwards ≡ some f = held-own_guest r d.forwards {f = f} k in
    if_rule
      (λ (x : Option Fwd). holding g o (adopt_into x h c b d).0.forwards ≡ holding g o d.forwards)
      (is_none f.closer && same_transport t d.tr)
      (λ e. holding-put g o _ d.forwards (sym (ap (held_by o) at))) (λ e. refl)

pub adopt-holding :
    (g : ℕ) (o : Owner) (t : ℕ) (r : Ref) (h : ℕ) (c : Closer) (b : Bool) (d : Daemon)
    → holding g o (adopt t r h c b d).0.forwards ≡ holding g o d.forwards
unfolding adopt
adopt-holding g o t r h c b d =
    let s = record d { forwards = settle r d.forwards } in
    adopt_into-holding g o r t (held r s.forwards) h c b s refl ∙ settle-holding g o r d.forwards

abbrev Withdraws : Claim → ℕ → Owner → Table → Table → Type 0
Withdraws c g o fs fs' =
    (holding g o fs' ≡ holding g o fs) ⊎ (IsWithdrawn c g o × (holding g o fs' ≡ none))

-- A record written back without an owner, or erased where it had no other.
pub holding-taken :
    (g : ℕ) (own o : Owner) (f : Fwd) (fs : Table)
    → (f.guest == g) ≡ true
    → same own o ≡ true
    → IsOnce f.owners
    → let k = record f { owners = delete_owner own f.owners } in
      (holding g o (put k fs) ≡ none) × (holding g o (erase f.guest fs) ≡ none)
unfolding holding
holding-taken g own o f fs hit s u =
    let k = record f { owners = delete_owner own f.owners } in
    let gone : expiry_of o k.owners ≡ none =
      subst (λ p. expiry_of p k.owners ≡ none) (same-eq own o s)
        (expiry_of-delete_owner_self own f.owners u) in
    (
      ap (held_by o) {y = some k} (find-put g k fs ∙ rw hit refl) ∙ gone,
      ap (held_by o) {y = none} (find-erase g f.guest fs ∙ rw hit refl),
    )

-- A slot that loses one owner.
withdrawn :
    (c : Claim) (f : Fwd) (g : ℕ) (o : Owner) (fs : Table)
    → c.added ≡ true
    → f.guest ≡ c.ref.guest
    → find f.guest fs ≡ some f
    → IsOnce f.owners
    → Withdraws c g o fs (
        let k = record f { owners = delete_owner c.own f.owners } in
        if unheld k then erase f.guest fs else put k fs)
unfolding holding
withdrawn c f g o fs ad at found once =
    let k = record f { owners = delete_owner c.own f.owners } in
    elim (Bool-cases (f.guest == g)) [
      | inr miss ↦ inl (
          if_rule (λ (t : Table). holding g o t ≡ holding g o fs) (unheld k)
            (λ e. ap (held_by o) {y = find g fs} (find-erase g f.guest fs ∙ rw miss refl))
            (λ e. ap (held_by o) {y = find g fs} (find-put g k fs ∙ rw miss refl)))
      | inl hit ↦ elim (Bool-cases (same c.own o)) [
        | inl s ↦
            let q : g ≡ f.guest = ground arith in
            let taken = holding-taken g c.own o f fs hit s once in
            inr (
              (ad, q ∙ at, sym (same-eq c.own o s)),
              if_rule (λ (t : Table). holding g o t ≡ none) (unheld k) (λ e. taken.1)
                  (λ e. taken.0),
            )
        | inr s ↦
            let kept : expiry_of o k.owners ≡ holding f.guest o fs =
              expiry_of-delete_owner c.own o f.owners s ∙ sym (ap (held_by o) found) in
            inl (
              if_rule (λ (t : Table). holding g o t ≡ holding g o fs) (unheld k)
                (λ e. holding-erase g f.guest o fs (sym kept ∙ expiry_of-empty o k.owners e))
                (λ e. holding-put g o k fs kept))
      ]
    ]

bind_lost-holding :
    (c : Claim) (dead : Bool) (e : BindErr) (x : Option Fwd) (d : Daemon) (g : ℕ) (o : Owner)
    → held c.ref d.forwards ≡ x
    → AllSound d
    → Withdraws c g o d.forwards (bind_lost c dead e x d).0.forwards
unfolding bind_lost
bind_lost-holding c dead e none d g o h u = inl refl
bind_lost-holding c dead e (some f) d g o h u =
    let P : Daemon × Answer → Type 0 = λ r. Withdraws c g o d.forwards r.0.forwards in
    let pending = is_none f.closer in
    if_rule P (pending && (not (same_transport c.transport d.tr) || not (is_up d.state) || dead))
      (λ k. inl refl)
      (λ k.
        if_rule P (pending && c.added)
          (λ l.
            withdrawn c f g o d.forwards (ground arith)
              (find-guest c.ref.guest d.forwards {f = f} (held-find c.ref d.forwards {f = f} h).0)
              (held-own_guest c.ref d.forwards {f = f} h)
              (All-held (Sound d.sessions d.tr) c.ref d.forwards u h).once)
          (λ l. inl refl))

-- The end of an add's bind.
pub bind_slot-holding :
    (c : Claim) (dead : Bool) (r : BindRes) (d : Daemon) (g : ℕ) (o : Owner)
    → AllSound d
    → Withdraws c g o d.forwards (bind_slot c dead r d).0.forwards
unfolding bind_slot bind_error
bind_slot-holding c dead (bound h k b) d g o u =
    inl (adopt-holding g o c.transport c.ref h k c.exact d)
bind_slot-holding c dead (unbound e) d g o u =
    let s = record d { forwards = settle c.ref d.forwards } in
    let sound = settle-Sound d.sessions d.tr c.ref d.forwards u in
    elim (bind_lost-holding c dead e (held c.ref s.forwards) s g o refl sound) [
      | inl k ↦ inl (k ∙ settle-holding g o c.ref d.forwards)
      | inr w ↦ inr w
    ]

pub claim_all-holding :
    (g : ℕ) (o : Owner) (ss : List Sess) (tried : List ℕ) (fs : Table)
    → holding g o (claim_all ss tried fs) ≡ holding g o fs
unfolding claim_all holding find
claim_all-holding g o ss tried [] = refl
claim_all-holding g o ss tried (f ∷ fs) =
    let P : Fwd → Type 0 = λ x. holding g o (x ∷ claim_all ss tried fs) ≡ holding g o (f ∷ fs) in
    let rest = claim_all-holding g o ss tried fs in
    elim (Bool-cases (f.guest == g)) [
      | inl hit ↦ if_rule P (rebinds ss tried f) (λ e. rw hit refl) (λ e. rw hit refl)
      | inr miss ↦ if_rule P (rebinds ss tried f) (λ e. rw miss rest) (λ e. rw miss rest)
    ]
