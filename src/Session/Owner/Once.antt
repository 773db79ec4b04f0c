-- ===== src/Session/Owner/Once.antt =====
-- The Go map from an owner to its info has one entry for each owner, under every operation on it.
use devvm.Prelude.{
  ℕ, Bool, true, false, ◌≡◌, inl, inr, refl, sym, ◌∙◌, ap, [], ◌∷◌, Option, none, some, arith,
  if◌then◌else◌, Bool-cases,
}
use devvm.Session.Owner.{
  Owner, conf, ttl, connection, Owners, same, expiry_of, put_owner, delete_owner, reject_owners,
  add_owner,
}

pub same_comm : (p o : Owner) → same p o ≡ same o p
same_comm conf conf = refl
same_comm conf ttl = refl
same_comm conf (connection b) = refl
same_comm ttl conf = refl
same_comm ttl ttl = refl
same_comm ttl (connection b) = refl
same_comm (connection a) conf = refl
same_comm (connection a) ttl = refl
same_comm (connection a) (connection b) = ground arith

abbrev pub IsOnce : Owners → Type 0
IsOnce [] = Unit
IsOnce ((p, x) ∷ m) = (expiry_of p m ≡ none) × IsOnce m

pub one-IsOnce : (o : Owner) (e : ℕ) → IsOnce ((o, e) ∷ [])
unfolding expiry_of
one-IsOnce o e = (refl, tt)

put_owner-none :
    (p o : Owner) (e : ℕ) (m : Owners)
    → same o p ≡ false
    → expiry_of p m ≡ none
    → expiry_of p (put_owner o e m) ≡ none
unfolding expiry_of put_owner
put_owner-none p o e [] h k = rw h refl
put_owner-none p o e ((q, y) ∷ m) h k = elim (Bool-cases (same q p)) [
  | inl s ↦ let k' = rw s at k in absurd (cc)
  | inr s ↦
      let k' : expiry_of p m ≡ none = rw s at k in
      elim (Bool-cases (same q o)) [
        | inl t ↦ rw (t, s) k'
        | inr t ↦ rw (t, s) (put_owner-none p o e m h k')
      ]
]

put_owner-IsOnce : (o : Owner) (e : ℕ) (m : Owners) → IsOnce m → IsOnce (put_owner o e m)
unfolding put_owner expiry_of
put_owner-IsOnce o e [] u = (refl, tt)
put_owner-IsOnce o e ((p, x) ∷ m) u = elim (Bool-cases (same p o)) [
  | inl s ↦ rw s u
  | inr s ↦ rw s (put_owner-none p o e m (same_comm o p ∙ s) u.0, put_owner-IsOnce o e m u.1)
]

pub add_owner-IsOnce : (o : Owner) (e : ℕ) (m : Owners) → IsOnce m → IsOnce (add_owner o e m).0
unfolding add_owner
add_owner-IsOnce o e m u = ground (arith, put_owner-IsOnce o e m u)

delete_owner-none :
    (p o : Owner) (m : Owners) → expiry_of p m ≡ none → expiry_of p (delete_owner o m) ≡ none
unfolding expiry_of delete_owner
delete_owner-none p o [] k = k
delete_owner-none p o ((q, y) ∷ m) k = elim (Bool-cases (same q p)) [
  | inl s ↦ let k' = rw s at k in absurd (cc)
  | inr s ↦
      let k' : expiry_of p m ≡ none = rw s at k in
      elim (Bool-cases (same q o)) [
        | inl t ↦ rw t k'
        | inr t ↦ rw (t, s) (delete_owner-none p o m k')
      ]
]

pub delete_owner-IsOnce : (o : Owner) (m : Owners) → IsOnce m → IsOnce (delete_owner o m)
unfolding delete_owner
delete_owner-IsOnce o [] u = tt
delete_owner-IsOnce o ((p, x) ∷ m) u = elim (Bool-cases (same p o)) [
  | inl s ↦ rw s u.1
  | inr s ↦ rw s (delete_owner-none p o m u.0, delete_owner-IsOnce o m u.1)
]

reject_owners-none :
    (match : Owner → ℕ → Bool) (p : Owner) (m : Owners)
    → expiry_of p m ≡ none
    → expiry_of p (reject_owners match m) ≡ none
unfolding expiry_of reject_owners
reject_owners-none match p [] k = k
reject_owners-none match p ((q, y) ∷ m) k = elim (Bool-cases (same q p)) [
  | inl s ↦ let k' = rw s at k in absurd (cc)
  | inr s ↦
      let rest = reject_owners-none match p m (rw s at k) in
      elim (Bool-cases (match q y)) [ inl t ↦ rw t rest | inr t ↦ rw (t, s) rest ]
]

pub reject_owners-IsOnce :
    (match : Owner → ℕ → Bool) (m : Owners) → IsOnce m → IsOnce (reject_owners match m)
unfolding reject_owners
reject_owners-IsOnce match [] u = tt
reject_owners-IsOnce match ((p, x) ∷ m) u = elim (Bool-cases (match p x)) [
  | inl s ↦ rw s (reject_owners-IsOnce match m u.1)
  | inr s ↦ rw s (reject_owners-none match p m u.0, reject_owners-IsOnce match m u.1)
]

-- Whoever is another's same is found where it is.
same-lookup : (p o : Owner) (m : Owners) → same p o ≡ true → expiry_of p m ≡ expiry_of o m
same-lookup conf conf m h = refl
same-lookup ttl ttl m h = refl
same-lookup (connection a) (connection b) m h =
    ap (λ (i : ℕ). expiry_of (connection i) m) (ground arith)
same-lookup conf ttl m h = absurd (cc)
same-lookup conf (connection b) m h = absurd (cc)
same-lookup ttl conf m h = absurd (cc)
same-lookup ttl (connection b) m h = absurd (cc)
same-lookup (connection a) conf m h = absurd (cc)
same-lookup (connection a) ttl m h = absurd (cc)

-- Once there, an owner that is deleted is gone.
pub expiry_of-delete_owner_self :
    (o : Owner) (m : Owners) → IsOnce m → expiry_of o (delete_owner o m) ≡ none
unfolding delete_owner expiry_of
expiry_of-delete_owner_self o [] u = refl
expiry_of-delete_owner_self o ((p, x) ∷ m) u = elim (Bool-cases (same p o)) [
  | inl s ↦ rw s (sym (same-lookup p o m s) ∙ u.0)
  | inr s ↦ rw (s, s) (expiry_of-delete_owner_self o m u.1)
]

-- What a test of owners and expiries leaves of a hold.
abbrev pub kept_by : (Owner → ℕ → Bool) → Owner → Option ℕ → Option ℕ
kept_by match o none = none
kept_by match o (some e) = if match o e then none else some e

pub expiry_of-reject_owners :
    (match : Owner → ℕ → Bool) (o : Owner) (m : Owners)
    → ((p : Owner) (e : ℕ) → same p o ≡ true → match p e ≡ match o e)
    → IsOnce m
    → expiry_of o (reject_owners match m) ≡ kept_by match o (expiry_of o m)
unfolding reject_owners expiry_of
expiry_of-reject_owners match o [] h u = refl
expiry_of-reject_owners match o ((p, x) ∷ m) h u = elim (Bool-cases (same p o)) [
  | inl s ↦
      let absent : expiry_of o m ≡ none = sym (same-lookup p o m s) ∙ u.0 in
      elim (Bool-cases (match p x)) [
        | inl t ↦ rw (t, s, sym (h p x s) ∙ t) (reject_owners-none match o m absent)
        | inr t ↦ rw (t, s, sym (h p x s) ∙ t) refl
      ]
  | inr s ↦
      let ih = expiry_of-reject_owners match o m h u.1 in
      elim (Bool-cases (match p x)) [ inl t ↦ rw (t, s) ih | inr t ↦ rw (t, s) ih ]
]
