-- ===== src/Session/Table/Rules.antt =====
-- A property of every forward of the table, under the operations on tables.
use devvm.Prelude.{All-keep, not, ℕ, ◌≡◌, [], ◌∷◌, some, arith, All, Bool-cases, inl, inr, ◌==◌}
use mathlib.Core.Path.{subst}
use devvm.Session.Fwd.{Fwd}
use devvm.Session.Table.{Table, find, put, erase, Ref, held}

pub find-guest : (g : ℕ) (fs : Table) {f : Fwd} → find g fs ≡ some f → f.guest ≡ g
unfolding find
find-guest g [] e = cc
find-guest g (x ∷ fs) {f} e = ground (arith, find-guest g fs {f = f})

pub held-find :
    (r : Ref) (fs : Table) {f : Fwd}
    → held r fs ≡ some f
    → (find r.guest fs ≡ some f) × (f.id ≡ r.id)
unfolding held
held-find r fs e = ground arith

module _ {κ} (P : Fwd → Type κ) where
  pub All-put : (f : Fwd) (fs : Table) → P f → All P fs → All P (put f fs)
  unfolding put
  All-put f [] h k = (h, tt)
  All-put f (x ∷ fs) h k = elim (Bool-cases (x.guest == f.guest)) [
    | inl hit ↦ rw hit (h, k.1)
    | inr miss ↦ rw miss (k.0, All-put f fs h k.1)
  ]

  pub All-erase : (g : ℕ) (fs : Table) → All P fs → All P (erase g fs)
  unfolding erase
  All-erase g fs k = All-keep P (λ f. not (f.guest == g)) fs k

  pub All-find : (g : ℕ) (fs : Table) {f : Fwd} → All P fs → find g fs ≡ some f → P f
  unfolding find
  All-find g [] k e = cc
  All-find g (x ∷ fs) k e = elim (Bool-cases (x.guest == g)) [
    | inl hit ↦ let e' = rw hit at e in subst P (cc) k.0
    | inr miss ↦ All-find g fs k.1 (rw miss at e)
  ]

  pub All-held : (r : Ref) (fs : Table) {f : Fwd} → All P fs → held r fs ≡ some f → P f
  All-held r fs k e = All-find r.guest fs k (held-find r fs e).0
