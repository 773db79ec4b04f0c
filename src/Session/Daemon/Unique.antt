-- ===== src/Session/Daemon/Unique.antt =====
-- The operations on the table keep one record for each guest port, and what they find there.
use devvm.Prelude.{
  ℕ, Bool, ◌≡◌, refl, ap, map, List, [], ◌∷◌, Option, none, some, arith, if◌then◌else◌, if_rule,
}
use devvm.Session.Owner.{Owner, reject_owners}
use devvm.Session.Fwd.{Fwd, Closer, unheld, finish_binding}
use devvm.Session.Table.{Table, find, Ref, held, on_found, IsFree, IsMap}
use devvm.Session.Table.Unique.{IsFree-find, IsMap-put, IsMap-erase}
use devvm.Session.Daemon.{settle, settle_held, drop_owners, released, detach_all}

pub settle-IsMap : (r : Ref) (fs : Table) → IsMap fs → IsMap (settle r fs)
unfolding settle
settle-IsMap r fs m = go (held r fs)
  where
    go : (o : Option Fwd) → IsMap (settle_held o fs)
    go none = m
    go (some f) =
        if_rule IsMap (unheld f) (λ e. IsMap-erase f.guest fs m)
          (λ e. IsMap-put (finish_binding f) fs m)

module _ (match : Owner → ℕ → Bool) where
  abbrev pub rejected : Fwd → Fwd
  rejected f = record f { owners = reject_owners match f.owners }

  -- What is left of one forward.
  abbrev pub dropped : Fwd → Option Fwd
  dropped f = if released (rejected f) then none else some (rejected f)

  drop_owners-IsFree : (g : ℕ) (fs : Table) → IsFree g fs → IsFree g (drop_owners match fs).0
  unfolding drop_owners
  drop_owners-IsFree g [] k = tt
  drop_owners-IsFree g (f ∷ fs) k =
      if_rule (λ (r : Table × List Closer). IsFree g r.0) (released (rejected f))
        (λ e. drop_owners-IsFree g fs k.1) (λ e. (k.0, drop_owners-IsFree g fs k.1))

  pub drop_owners-IsMap : (fs : Table) → IsMap fs → IsMap (drop_owners match fs).0
  unfolding drop_owners
  drop_owners-IsMap [] m = tt
  drop_owners-IsMap (f ∷ fs) m =
      if_rule (λ (r : Table × List Closer). IsMap r.0) (released (rejected f))
        (λ e. drop_owners-IsMap fs m.1)
        (λ e. (drop_owners-IsFree f.guest fs m.0, drop_owners-IsMap fs m.1))

  -- A guest port finds what is left of its own forward.
  pub find-drop_owners :
      (g : ℕ) (fs : Table)
      → IsMap fs
      → find g (drop_owners match fs).0 ≡ on_found dropped (find g fs)
  unfolding drop_owners find
  find-drop_owners g [] m = refl
  find-drop_owners g (f ∷ fs) m =
      ground (
        arith,
        find-drop_owners g fs m.1,
        IsFree-find f.guest _ (drop_owners-IsFree f.guest fs m.0),
      )

abbrev pub detached : Fwd → Fwd
detached f = record f { closer = none }

-- The table under a change of each forward that keeps its guest port.
module _ (k : Fwd → Fwd) (same_guest : (f : Fwd) → (k f).guest ≡ f.guest) where
  map-IsFree : (g : ℕ) (fs : Table) → IsFree g fs → IsFree g (map k fs)
  map-IsFree g [] h = tt
  map-IsFree g (f ∷ fs) h = (rw (same_guest f) h.0, map-IsFree g fs h.1)

  pub map-IsMap : (fs : Table) → IsMap fs → IsMap (map k fs)
  map-IsMap [] m = tt
  map-IsMap (f ∷ fs) m = (rw (same_guest f) (map-IsFree f.guest fs m.0), map-IsMap fs m.1)

  pub find-map : (g : ℕ) (fs : Table) → find g (map k fs) ≡ on_found (λ f. some (k f)) (find g fs)
  unfolding find
  find-map g [] = refl
  find-map g (f ∷ fs) = ground (arith, same_guest f, find-map g fs)

pub detach_all-map : (fs : Table) → detach_all fs ≡ map detached fs
unfolding detach_all
detach_all-map [] = refl
detach_all-map (f ∷ fs) = ap (◌∷◌ (detached f)) (detach_all-map fs)
