-- ===== src/Session/System/Adds/Bound.antt =====
-- The end of a bind, and the claims of a batch, against what holds of every forward.
use devvm.Prelude.{
  ℕ, Bool, true, false, not, ◌&&◌, ◌||◌, ◌≡◌, inl, inr, refl, List, [], ◌∷◌, Option, none, some,
  arith, All, All-map, Bool-cases, if_rule,
}
use devvm.Session.Owner.{delete_owner}
use devvm.Session.Fwd.{Closer, Fwd, is_none, unheld}
use devvm.Session.Table.{Table, Ref, held}
use devvm.Session.Table.Rules.{All-erase, All-held}
use devvm.Session.Daemon.{Transport, Sess, Daemon, settle, is_up}
use devvm.Session.Daemon.Settle.{settled-idle}
use devvm.Session.Add.{Claim, Answer}
use devvm.Session.Add.Binding.{
  adopt, adopt_into, adoptable, same_transport, bind_lost, bind_error, bind_slot,
}
use devvm.Session.Bind.{BindErr, BindRes, bound, unbound}
use devvm.Session.Rebind.{rebinds, claim_all}
use devvm.Session.System.Sound.{Carried, Sound, settle-Sound}
use devvm.Session.System.Keeps.{put-AllSound, delete_owner-Sound, AllSound}
use devvm.Session.System.Adds.{claim-Sound}

-- The result of a bind is adopted on the transport that carries its closer, or not at all.
adopt_into-AllSound :
    (o : Option Fwd) (t host : ℕ) (c : Closer) (exact : Bool) (d : Daemon)
    → c.transport ≡ t
    → ((f : Fwd) → o ≡ some f → Sound d.sessions d.tr f × (f.binding ≡ false))
    → AllSound d
    → AllSound (adopt_into (adoptable t o d) host c exact d).0
unfolding adopt_into
adopt_into-AllSound none t host c exact d e s k = k
adopt_into-AllSound (some f) t host c exact d e s k =
    elim (Bool-cases (is_none f.closer && same_transport t d.tr)) [
      | inl x ↦ rw x (put-AllSound _ d (adopted x (s f refl)) k)
      | inr x ↦ rw x k
    ]
  where
    on_current : (o : Option Transport) → same_transport t o ≡ true → Carried o (some c)
    on_current none h = cc
    on_current (some u) h = ground arith

    adopted :
        (is_none f.closer && same_transport t d.tr) ≡ true
        → Sound d.sessions d.tr f × (f.binding ≡ false)
        → Sound d.sessions d.tr
            (record f { host = host; closer = some c; v6 = c.v6; exact = f.exact || exact })
    adopted x (s, idle) = record {
      carried = on_current d.tr (ground arith);
      registered = s.registered;
      unbound = λ b. cc;
      owned = s.owned;
      once = s.once;
    }

pub adopt-AllSound :
    (t : ℕ) (r : Ref) (host : ℕ) (c : Closer) (exact : Bool) (d : Daemon)
    → c.transport ≡ t
    → AllSound d
    → AllSound (adopt t r host c exact d).0
unfolding adopt
adopt-AllSound t r host c exact d e k =
    adopt_into-AllSound (held r (settle r d.forwards)) t host c exact
      (record d { forwards = settle r d.forwards }) e
      (λ f x. (
        All-held (Sound d.sessions d.tr) r (settle r d.forwards) settled x,
        (settled-idle r d.forwards x).0,
      ))
      settled
  where
    settled : All (Sound d.sessions d.tr) (settle r d.forwards)
    settled = settle-Sound d.sessions d.tr r d.forwards k

bind_lost-AllSound :
    (c : Claim) (dead : Bool) (e : BindErr) (o : Option Fwd) (d : Daemon)
    → ((f : Fwd) → o ≡ some f → Sound d.sessions d.tr f)
    → AllSound d
    → AllSound (bind_lost c dead e o d).0
unfolding bind_lost
bind_lost-AllSound c dead e none d s k = k
bind_lost-AllSound c dead e (some f) d s k =
    if_rule (λ (r : Daemon × Answer). AllSound r.0)
      (is_none f.closer && (not (same_transport c.transport d.tr) || not (is_up d.state) || dead))
      (λ x. k)
      (λ x.
        if_rule (λ (r : Daemon × Answer). AllSound r.0) (is_none f.closer && c.added)
          (λ y.
            if_rule (λ fs. AllSound (record d { forwards = fs })) (unheld g)
              (λ z. All-erase (Sound d.sessions d.tr) f.guest d.forwards k)
              (λ z. put-AllSound g d (delete_owner-Sound c.own f (s f refl) (λ b. z)) k))
          (λ y. k))
  where
    g : Fwd
    g = record f { owners = delete_owner c.own f.owners }

bind_error-AllSound :
    (c : Claim) (dead : Bool) (e : BindErr) (d : Daemon)
    → AllSound d
    → AllSound (bind_error c dead e d).0
unfolding bind_error
bind_error-AllSound c dead e d k =
    bind_lost-AllSound c dead e _ (record d { forwards = settle c.ref d.forwards })
      (λ f x. All-held (Sound d.sessions d.tr) c.ref (settle c.ref d.forwards) settled x) settled
  where
    settled : All (Sound d.sessions d.tr) (settle c.ref d.forwards)
    settled = settle-Sound d.sessions d.tr c.ref d.forwards k

-- Where a bind comes back from the transport of its claim.
abbrev pub BoundOn : ℕ → BindRes → Type 0
BoundOn t (bound h c b) = c.transport ≡ t
BoundOn t (unbound e) = Unit {0}

pub bind_slot-AllSound :
    (c : Claim) (dead : Bool) (r : BindRes) (d : Daemon)
    → BoundOn c.transport r
    → AllSound d
    → AllSound (bind_slot c dead r d).0
unfolding bind_slot
bind_slot-AllSound c dead (unbound e) d on k = bind_error-AllSound c dead e d k
bind_slot-AllSound c dead (bound h x b) d on k = adopt-AllSound c.transport c.ref h x c.exact d on k

rebinds-pending :
    (ss : List Sess) (tried : List ℕ) (f : Fwd) → rebinds ss tried f ≡ true → f.closer ≡ none
rebinds-pending ss tried f h = ground arith

pub claim_all-Sound :
    (ss : List Sess) (tried : List ℕ) (tr : Option Transport) (fs : Table)
    → All (Sound ss tr) fs
    → All (Sound ss tr) (claim_all ss tried fs)
unfolding claim_all
claim_all-Sound ss tried tr [] k = tt
claim_all-Sound ss tried tr (f ∷ fs) k = (
  if_rule (Sound ss tr) (rebinds ss tried f)
      (λ e. claim-Sound ss tr f (rebinds-pending ss tried f e) k.0.registered k.0.once) (λ e. k.0),
  claim_all-Sound ss tried tr fs k.1,
)

-- Where there is no transport, no forward is bound, and a new one finds them all pending.
pub install-Sound :
    (ss : List Sess) (t : Transport) (fs : Table)
    → All (Sound ss none) fs
    → All (Sound ss (some t)) fs
install-Sound ss t fs k = All-map (Sound ss none) (Sound ss (some t)) fs one k
  where
    pending : (o : Option Closer) → Carried none o → Carried (some t) o
    pending none h = tt
    pending (some c) h = absurd h

    one : (f : Fwd) → Sound ss none f → Sound ss (some t) f
    one f s = record {
      carried = pending f.closer s.carried;
      registered = s.registered;
      unbound = s.unbound;
      owned = s.owned;
      once = s.once;
    }
