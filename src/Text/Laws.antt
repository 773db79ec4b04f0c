-- ===== src/Text/Laws.antt =====
-- Laws of the functions on texts.
use devvm.Prelude.{
  ℕ, true, false, ◌≡◌, inl, inr, refl, sym, ◌∙◌, ap, subst, [], ◌∷◌, ◌++◌, Option, none, some,
  arith, ◌==◌, ==_refl, Bool-cases, Option-cases, is_empty, if◌then◌else◌,
}
use mathlib.Core.List.{append_assoc}
use devvm.Text.{is_space, trim_right, Text, lacks, cut, newline, split_lines, eq_text}

pub lacks-append :
    (c : ℕ) (a b : Text) → lacks c a ≡ true → lacks c b ≡ true → lacks c (a ++ b) ≡ true
unfolding lacks
lacks-append c [] b h k = k
lacks-append c (x ∷ a) b h k = ground (arith, lacks-append c a b)

pub lacks-front : (c : ℕ) (a b : Text) → lacks c (a ++ b) ≡ true → lacks c a ≡ true
unfolding lacks
lacks-front c [] b h = refl
lacks-front c (x ∷ a) b h = ground (arith, lacks-front c a b)

pub cut-append : (sep : ℕ) (a b : Text) → lacks sep a ≡ true → cut sep (a ++ sep ∷ b) ≡ some (a, b)
unfolding cut lacks
cut-append sep [] b h = elim (Option-cases (cut sep b)) [
  | inl k ↦ rw (k, ==_refl sep) refl
  | inr (r, k) ↦ rw (k, ==_refl sep) refl
]
cut-append sep (c ∷ a) b h = rw (cut-append sep a b (ground arith)) (ground arith)

pub cut-lacks : (sep : ℕ) (s : Text) → lacks sep s ≡ true → cut sep s ≡ none
unfolding cut lacks
cut-lacks sep [] h = refl
cut-lacks sep (c ∷ s) h = rw (cut-lacks sep s (ground arith)) (ground arith)

pub cut-some : (sep : ℕ) (s : Text) {a b : Text} → cut sep s ≡ some (a, b) → s ≡ a ++ sep ∷ b
unfolding cut
cut-some sep [] h = absurd (cc)
cut-some sep (c ∷ s) {a} {b} h = elim (Option-cases (cut sep s)) [
  | inl n ↦ elim (Bool-cases (c == sep)) [
    | inl k ↦ let h' = rw (n, k) at h in from_parts [] s (cc) (ap (λ x. x ∷ s) (ground arith))
    | inr k ↦ let h' = rw (n, k) at h in absurd (cc)
  ]
  | inr (r, n) ↦ elim (Bool-cases (c == sep)) [
    | inl k ↦ let h' = rw (n, k) at h in from_parts [] s (cc) (ap (λ x. x ∷ s) (ground arith))
    | inr k ↦
        let h' = rw (n, k) at h in
        from_parts (c ∷ r.0) r.1 (cc) (ap (λ x. c ∷ x) (cut-some sep s {a = r.0} {b = r.1} n))
  ]
]
  where
    from_parts :
        (u v : Text)
        → ◌≡◌ {A = Option (Text × Text)} (some (u, v)) (some (a, b))
        → c ∷ s ≡ u ++ sep ∷ v
        → c ∷ s ≡ a ++ sep ∷ b
    from_parts u v e k =
        subst (λ (r : Text × Text). c ∷ s ≡ r.0 ++ sep ∷ r.1) {x = (u, v)} {y = (a, b)} (cc) k

abbrev LacksFront : ℕ → Text → Option (Text × Text) → Type 0
LacksFront sep s none = lacks sep s ≡ true
LacksFront sep s (some (a, b)) = lacks sep a ≡ true

cut-LacksFront : (sep : ℕ) (s : Text) → LacksFront sep s (cut sep s)
unfolding cut lacks
cut-LacksFront sep [] = refl
cut-LacksFront sep (c ∷ s) = elim (Bool-cases (c == sep)) [
  | inl k ↦ at_once (cut sep s) k
  | inr k ↦ later (cut sep s) k (cut-LacksFront sep s)
]
  where
    at_once :
        (o : Option (Text × Text))
        → (c == sep) ≡ true
        → LacksFront sep (c ∷ s) (elim o [
          | none ↦ if c == sep then some ([], s) else none
          | some (a, b) ↦ if c == sep then some ([], s) else some (c ∷ a, b)
        ])
    at_once none k = rw k refl
    at_once (some (a, b)) k = rw k refl

    later :
        (o : Option (Text × Text))
        → (c == sep) ≡ false
        → LacksFront sep s o
        → LacksFront sep (c ∷ s) (elim o [
          | none ↦ if c == sep then some ([], s) else none
          | some (a, b) ↦ if c == sep then some ([], s) else some (c ∷ a, b)
        ])
    later none k h = rw k (ground (arith, h))
    later (some (a, b)) k h = rw k (ground (arith, h))

-- Without a cut, the character does not occur.
pub cut_none : (sep : ℕ) (s : Text) → cut sep s ≡ none → lacks sep s ≡ true
cut_none sep s h = of_result (cut sep s) (cut-LacksFront sep s) h
  where
    of_result : (o : Option (Text × Text)) → LacksFront sep s o → o ≡ none → lacks sep s ≡ true
    of_result none k e = k
    of_result (some r) k e = absurd (cc)

-- The cut is at the first occurrence.
pub cut_first : (sep : ℕ) (s : Text) {a b : Text} → cut sep s ≡ some (a, b) → lacks sep a ≡ true
cut_first sep s {a} {b} h = of_result (cut sep s) (cut-LacksFront sep s) h
  where
    of_result :
        (o : Option (Text × Text)) → LacksFront sep s o → o ≡ some (a, b) → lacks sep a ≡ true
    of_result none k e = absurd (cc)
    of_result (some (x, y)) k e = subst (λ (z : Text). lacks sep z ≡ true) {x = x} {y = a} (cc) k

pub split_lines-append :
    (a b : Text) → lacks newline a ≡ true → split_lines (a ++ newline ∷ b) ≡ a ∷ split_lines b
unfolding split_lines lacks
split_lines-append [] b h = refl
split_lines-append (c ∷ a) b h = rw (split_lines-append a b (ground arith)) (ground arith)

pub eq_text_refl : (a : Text) → eq_text a a ≡ true
unfolding eq_text
eq_text_refl [] = refl
eq_text_refl (c ∷ s) = rw (==_refl c) (eq_text_refl s)

pub eq_text_eq : (a b : Text) → eq_text a b ≡ true → a ≡ b
unfolding eq_text
eq_text_eq [] [] h = refl
eq_text_eq [] (c ∷ t) h = absurd (cc)
eq_text_eq (c ∷ s) [] h = absurd (cc)
eq_text_eq (c ∷ s) (d ∷ t) h =
    let head : c ≡ d = ground arith in let tail : s ≡ t = eq_text_eq s t (ground arith) in cc

-- A name that is one of two different names is not the other.
pub eq_text_apart : (k m n : Text) → eq_text k m ≡ false → eq_text k n ≡ true → eq_text m n ≡ false
eq_text_apart k m n h e = elim (Bool-cases (eq_text m n)) [
  | inr x ↦ x
  | inl x ↦ let at = subst (λ y. eq_text k y ≡ true) (sym (eq_text_eq m n x)) e in absurd (cc)
]

pub is_empty-append : (a v : Text) → is_empty v ≡ false → is_empty (a ++ v) ≡ false
is_empty-append [] v h = h
is_empty-append (c ∷ a) v h = refl

-- Behind any text, what does not end in a space is trimmed at the front alone.
pub trim_right-append :
    (a v : Text) → is_empty v ≡ false → trim_right v ≡ v → trim_right (a ++ v) ≡ a ++ v
unfolding trim_right
trim_right-append [] v h k = k
trim_right-append (c ∷ a) v h k =
    rw (trim_right-append a v h k) (ground (arith, is_empty-append a v h))

pub trim_right-last :
    (a : Text) (c : ℕ) → is_space c ≡ false → trim_right (a ++ c ∷ []) ≡ a ++ c ∷ []
unfolding trim_right
trim_right-last a c h = trim_right-append a (c ∷ []) refl (trim_one h)
  where
    trim_one : is_space c ≡ false → trim_right (c ∷ []) ≡ c ∷ []
    trim_one h = ground arith

pub trim_right-between :
    (k : Text) (c : ℕ) (v : Text)
    → is_empty v ≡ false
    → trim_right v ≡ v
    → trim_right (k ++ c ∷ v) ≡ k ++ c ∷ v
trim_right-between k c v h t =
    sym (ap trim_right (append_assoc k (c ∷ []) v))
    ∙ trim_right-append (k ++ c ∷ []) v h t
    ∙ append_assoc k (c ∷ []) v

-- Texts that are nothing but spaces, such as a line's end, are trimmed off at the end.
pub trim_right-blank : (a t : Text) → trim_right t ≡ [] → trim_right (a ++ t) ≡ trim_right a
unfolding trim_right
trim_right-blank [] t h = h
trim_right-blank (c ∷ a) t h = rw (trim_right-blank a t h) refl
