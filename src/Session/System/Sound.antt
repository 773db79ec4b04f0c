-- ===== src/Session/System/Sound.antt =====
-- What holds of every forward of the table, whatever the interleaving.
use devvm.Prelude.{
  ℕ, Bool, true, false, ◌≡◌, inl, inr, refl, List, [], ◌∷◌, Option, none, some, arith, All,
  Bool-cases,
}
use devvm.Session.Owner.{Owner, Owners, reject_owners}
use devvm.Session.Owner.Each.{Each, Each-reject_owners}
use devvm.Session.Owner.Once.{IsOnce, reject_owners-IsOnce}
use devvm.Session.Fwd.{Closer, Fwd, unheld, finish_binding}
use devvm.Session.Table.{Table, Ref, held}
use devvm.Session.Table.Rules.{All-put, All-erase, All-held}
use devvm.Session.Daemon.{Transport, Sess, settle_held, settle, released, drop_owners, detach_all}
use devvm.Session.Add.{orphan}

-- A bound forward is carried by the current transport.
abbrev pub Carried : Option Transport → Option Closer → Type 0
Carried tr none = Unit {0}
Carried none (some c) = ⊥
Carried (some t) (some c) = t.id ≡ c.transport

-- Every connection that owns the forward is a registered session.
abbrev pub Registered : List Sess → Owners → Type 0
Registered ss = Each (λ o. orphan ss o ≡ false)

-- A forward is bound only on the current transport, held by registered sessions only, without a
-- closer while a binder works on it, held by somebody unless a binder works on it, and by nobody
-- twice.
pub record Sound (ss : List Sess) (tr : Option Transport) (f : Fwd) : Type 0 where
  pub carried : Carried tr f.closer
  pub registered : Registered ss f.owners
  pub unbound : f.binding ≡ true → f.closer ≡ none
  pub owned : f.binding ≡ false → unheld f ≡ false
  pub once : IsOnce f.owners

module _ (ss : List Sess) (tr : Option Transport) where
  pub finish-Sound : {f : Fwd} → unheld f ≡ false → Sound ss tr f → Sound ss tr (finish_binding f)
  finish-Sound e s = record {
    carried = s.carried;
    registered = s.registered;
    unbound = λ h. cc;
    owned = λ h. e;
    once = s.once;
  }

  -- `settleLocked` finishes a slot that is held, and drops one that is not.
  settle_held-Sound :
      (o : Option Fwd) (fs : Table)
      → ((f : Fwd) → o ≡ some f → Sound ss tr f)
      → All (Sound ss tr) fs
      → All (Sound ss tr) (settle_held o fs)
  unfolding settle_held
  settle_held-Sound none fs h k = k
  settle_held-Sound (some f) fs h k = elim (Bool-cases (unheld f)) [
    | inl e ↦ rw e (All-erase (Sound ss tr) f.guest fs k)
    | inr e ↦ rw e (All-put (Sound ss tr) (finish_binding f) fs (finish-Sound e (h f refl)) k)
  ]

  pub settle-Sound : (r : Ref) (fs : Table) → All (Sound ss tr) fs → All (Sound ss tr) (settle r fs)
  unfolding settle
  settle-Sound r fs k = settle_held-Sound (held r fs) fs (λ f e. All-held (Sound ss tr) r fs k e) k

  pub detach_all-Sound : (fs : Table) → All (Sound ss tr) fs → All (Sound ss none) (detach_all fs)
  unfolding detach_all
  detach_all-Sound [] k = tt
  detach_all-Sound (f ∷ fs) k = (
    record {
      carried = tt;
      registered = k.0.registered;
      unbound = λ h. refl;
      owned = k.0.owned;
      once = k.0.once;
    },
    detach_all-Sound fs k.1,
  )

-- Owners go by `match`, and sessions with them: those of the owners that stay are still there.
module _ (tr : Option Transport) (ss later : List Sess) (match : Owner → ℕ → Bool)
    (stay : (o : Owner) (e : ℕ)
      → orphan ss o ≡ false
      → match o e ≡ false
      → orphan later o ≡ false) where
  reject-Sound :
      (f : Fwd)
      → Sound ss tr f
      → released (record f { owners = reject_owners match f.owners }) ≡ false
      → Sound later tr (record f { owners = reject_owners match f.owners })
  unfolding released
  reject-Sound f s e = record {
    carried = s.carried;
    registered =
        Each-reject_owners (λ o. orphan ss o ≡ false) (λ o. orphan later o ≡ false) match f.owners
          stay s.registered;
    unbound = s.unbound;
    owned = λ h. ground arith;
    once = reject_owners-IsOnce match f.owners s.once;
  }

  pub drop_owners-Sound :
      (fs : Table) → All (Sound ss tr) fs → All (Sound later tr) (drop_owners match fs).0
  unfolding drop_owners
  drop_owners-Sound [] k = tt
  drop_owners-Sound (f ∷ fs) k =
      elim (Bool-cases (released (record f { owners = reject_owners match f.owners }))) [
        | inl e ↦ rw e (drop_owners-Sound fs k.1)
        | inr e ↦ rw e (reject-Sound f k.0 e, drop_owners-Sound fs k.1)
      ]
