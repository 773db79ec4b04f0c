-- ===== src/Text/Trim.antt =====
-- Trimming twice is trimming once; a trimmed text neither starts nor ends with a space.
use devvm.Prelude.{
  ℕ, suc, ◌≤◌, arith, if_rule, length, false, ◌&&◌, ◌≡◌, inl, inr, refl, ◌∙◌, ap, [], ◌∷◌,
  Bool-cases, is_empty,
}
use devvm.Text.{Text, is_space, trim_left, trim_right, trim_space}

trim_right_twice : (s : Text) → trim_right (trim_right s) ≡ trim_right s
unfolding trim_right
trim_right_twice [] = refl
trim_right_twice (c ∷ s) =
    let rest = trim_right_twice s in
    elim (Bool-cases (is_space c && is_empty (trim_right s))) [
      | inl h ↦ rw h refl
      | inr h ↦ rw h (rw rest (rw h refl))
    ]

-- The first character of a text that is trimmed in front is no space.
trim_left-head : (s : Text) {c : ℕ} {t : Text} → trim_left s ≡ c ∷ t → is_space c ≡ false
unfolding trim_left
trim_left-head [] e = absurd (cc)
trim_left-head (x ∷ s) {c} {t} e = elim (Bool-cases (is_space x)) [
  | inl h ↦ trim_left-head s {c = c} {t = t} (rw h at e)
  | inr h ↦ let e' = rw h at e in let q : x ≡ c = cc in rw (← q) h
]

trim_left-trim_right :
    (c : ℕ) (t : Text) → is_space c ≡ false → trim_left (trim_right (c ∷ t)) ≡ trim_right (c ∷ t)
unfolding trim_left trim_right
trim_left-trim_right c t h = rw h (rw h refl)

nil_trimmed : trim_left (trim_right []) ≡ trim_right []
unfolding trim_left trim_right
nil_trimmed = refl

pub trim_space_twice : (s : Text) → trim_space (trim_space s) ≡ trim_space s
unfolding trim_space
trim_space_twice s = ap trim_right (front (trim_left s) refl) ∙ trim_right_twice (trim_left s)
  where
    front : (x : Text) → trim_left s ≡ x → trim_left (trim_right x) ≡ trim_right x
    front [] e = nil_trimmed
    front (c ∷ t) e = trim_left-trim_right c t (trim_left-head s {c = c} {t = t} e)

length-trim_left : (s : Text) → length (trim_left s) ≤ length s
unfolding trim_left
length-trim_left [] = omega arith
length-trim_left (c ∷ s) =
    if_rule (λ (t : Text). length t ≤ suc (length s)) (is_space c)
      (λ h. omega (arith, length-trim_left s)) (λ h. omega arith)

length-trim_right : (s : Text) → length (trim_right s) ≤ length s
unfolding trim_right
length-trim_right [] = omega arith
length-trim_right (c ∷ s) =
    if_rule (λ (t : Text). length t ≤ suc (length s)) (is_space c && is_empty (trim_right s))
      (λ h. omega arith) (λ h. omega (arith, length-trim_right s))

pub length-trim_space : (s : Text) → length (trim_space s) ≤ length s
unfolding trim_space
length-trim_space s = omega (arith, length-trim_right (trim_left s), length-trim_left s)

-- What a trimmed text is.
pub record IsTrimmed (c : ℕ) (t : Text) : Type 0 where
  pub front : is_space c ≡ false
  pub back : trim_right (c ∷ t) ≡ c ∷ t

pub IsTrimmed-of : (c : ℕ) (t : Text) → trim_space (c ∷ t) ≡ c ∷ t → IsTrimmed c t
unfolding trim_space trim_left
IsTrimmed-of c t h = elim (Bool-cases (is_space c)) [
  | inl k ↦ absurd (longer (rw k at h))
  | inr k ↦ record { front = k; back = rw k at h }
]
  where
    longer : trim_right (trim_left t) ≡ c ∷ t → ⊥
    longer e =
        let same : length (trim_right (trim_left t)) ≡ suc (length t) = ap length e in
        omega (arith, same, length-trim_right (trim_left t), length-trim_left t)

pub trim_space-IsTrimmed : (c : ℕ) (t : Text) → IsTrimmed c t → trim_space (c ∷ t) ≡ c ∷ t
unfolding trim_space trim_left
trim_space-IsTrimmed c t h = rw h.front h.back
