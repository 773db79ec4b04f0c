-- ===== src/Session/Table/Find.antt =====
-- What a lookup finds after a write: the laws of the map.
use devvm.Prelude.{
  ℕ, false, ◌≡◌, refl, [], ◌∷◌, none, some, arith, Bool-cases, inl, inr, ◌==◌, ◌⊎◌, if◌then◌else◌,
}
use devvm.Session.Fwd.{Fwd}
use devvm.Session.Table.{Table, find, put, erase, Ref, held}

pub find-put :
    (g : ℕ) (f : Fwd) (fs : Table)
    → find g (put f fs) ≡ (if f.guest == g then some f else find g fs)
unfolding find put
find-put g f [] = refl
find-put g f (x ∷ fs) = ground (arith, find-put g f fs)

pub find-erase : (g h : ℕ) (fs : Table) → find g (erase h fs) ≡ (if h == g then none else find g fs)
unfolding find erase
find-erase g h [] = ground arith
find-erase g h (x ∷ fs) = ground (arith, find-erase g h fs)

-- The record that a reference holds, once a record with its identity is written back.
pub held-put_self :
    (r : Ref) (f : Fwd) (fs : Table) → f.guest ≡ r.guest → f.id ≡ r.id → held r (put f fs) ≡ some f
unfolding held
held-put_self r f fs g i = rw (find-put r.guest f fs) (ground arith)

pub held-erase : (r : Ref) (fs : Table) → held r (erase r.guest fs) ≡ none
unfolding held
held-erase r fs = rw (find-erase r.guest r.guest fs) (ground arith)

-- A record found after a write is the one written, or stood there under another guest port.
pub find-put_cases :
    (g : ℕ) (f : Fwd) (fs : Table) {x : Fwd}
    → find g (put f fs) ≡ some x
    → ((f ≡ x) × (g ≡ f.guest)) ⊎ (((f.guest == g) ≡ false) × (find g fs ≡ some x))
find-put_cases g f fs e = elim (Bool-cases (f.guest == g)) [
  | inl hit ↦ let e' = rw (find-put g f fs, hit) at e in inl (cc, ground arith)
  | inr miss ↦ inr (miss, rw (find-put g f fs, miss) at e)
]

pub find-erase-some :
    (g h : ℕ) (fs : Table) {x : Fwd}
    → find g (erase h fs) ≡ some x
    → ((h == g) ≡ false) × (find g fs ≡ some x)
find-erase-some g h fs e = elim (Bool-cases (h == g)) [
  | inl hit ↦ let e' = rw (find-erase g h fs, hit) at e in absurd (ground arith)
  | inr miss ↦ (miss, rw (find-erase g h fs, miss) at e)
]
