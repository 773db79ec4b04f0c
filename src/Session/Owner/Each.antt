-- ===== src/Session/Owner/Each.antt =====
-- A property of every owner of a forward, under the operations on owners.
use devvm.Prelude.{ℕ, Bool, false, ◌≡◌, [], ◌∷◌, arith, All, Bool-cases, inl, inr, refl, is_empty}
use devvm.Session.Owner.{
  Owner, Owners, expiry_of, put_owner, delete_owner, reject_owners, add_owner,
}

module _ {κ} (P : Owner → Type κ) where
  abbrev pub Each : Owners → Type κ
  Each m = All (λ p. P p.0) m

  pub Each-put_owner : (o : Owner) (e : ℕ) (m : Owners) → P o → Each m → Each (put_owner o e m)
  unfolding put_owner
  Each-put_owner o e [] h k = (h, tt)
  Each-put_owner o e ((p, x) ∷ m) h k = ground (arith, Each-put_owner o e m h k.1)

  pub Each-delete_owner : (o : Owner) (m : Owners) → Each m → Each (delete_owner o m)
  unfolding delete_owner
  Each-delete_owner o [] k = k
  Each-delete_owner o ((p, x) ∷ m) k = ground (arith, Each-delete_owner o m k.1)

  pub Each-add_owner : (o : Owner) (e : ℕ) (m : Owners) → P o → Each m → Each (add_owner o e m).0
  unfolding add_owner
  Each-add_owner o e m h k = ground (arith, Each-put_owner o e m h k)

-- What is left of the owners passed the test, and may be held to less.
pub Each-reject_owners {κ μ} :
    (P : Owner → Type κ) (Q : Owner → Type μ) (match : Owner → ℕ → Bool) (m : Owners)
    → ((o : Owner) (e : ℕ) → P o → match o e ≡ false → Q o)
    → Each P m
    → Each Q (reject_owners match m)
unfolding reject_owners
Each-reject_owners P Q match [] f k = tt
Each-reject_owners P Q match ((p, x) ∷ m) f k = elim (Bool-cases (match p x)) [
  | inl yes' ↦ rw yes' (Each-reject_owners P Q match m f k.1)
  | inr no' ↦ rw no' (f p x k.0 no', Each-reject_owners P Q match m f k.1)
]

pub put_owner-ne-nil : (o : Owner) (e : ℕ) (m : Owners) → is_empty (put_owner o e m) ≡ false
unfolding put_owner
put_owner-ne-nil o e [] = refl
put_owner-ne-nil o e ((p, x) ∷ m) = ground arith

pub add_owner-ne-nil : (o : Owner) (e : ℕ) (m : Owners) → is_empty (add_owner o e m).0 ≡ false
unfolding add_owner expiry_of
add_owner-ne-nil o e [] = put_owner-ne-nil o e []
add_owner-ne-nil o e ((p, x) ∷ m) = ground (arith, put_owner-ne-nil o e ((p, x) ∷ m))
