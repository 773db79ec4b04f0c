-- ===== src/Config/Edit/Lines.antt =====
-- `strings.SplitAfter` at line ends, of texts put together; the line ends of `AppendEntry`.
use devvm.Prelude.{
  ℕ, if◌then◌else◌, Bool, true, false, ◌&&◌, ◌≡◌, inl, inr, refl, sym, ◌∙◌, ap, List, [], ◌∷◌, ◌++◌,
  ◌==◌, Bool-cases, if_rule, is_empty, All, arith,
}
use mathlib.Core.List.{append_assoc}
use devvm.Text.{Text, lacks, newline, prepend, is_space, trim_left, trim_right}
use devvm.Text.Laws.{lacks-append}
use devvm.Config.Edit.{line_end, ends_line}
use devvm.Config.Edit.Cut.{split_after, split_tail}

-- Two texts, the first ended by a line end, are split apart.
split_after-line :
    (m t : Text)
    → lacks newline m ≡ true
    → split_after (m ++ newline ∷ t) ≡ (m ++ newline ∷ []) ∷ split_after t
unfolding split_after lacks
split_after-line [] t h = refl
split_after-line (c ∷ m) t h = rw (split_after-line m t (ground arith)) (ground arith)

abbrev split_step : ℕ → List Text → List Text
split_step c ls = if c == newline then (c ∷ []) ∷ ls else prepend c ls

split_step-append :
    (c : ℕ) (ls ms : List Text)
    → is_empty ls ≡ false
    → split_step c (ls ++ ms) ≡ split_step c ls ++ ms
split_step-append c [] ms h = absurd (cc)
split_step-append c (l ∷ ls) ms h = elim (Bool-cases (c == newline)) [
  | inl k ↦ rw k refl
  | inr k ↦ rw k refl
]

split_step_full : (c : ℕ) (ls : List Text) → is_empty (split_step c ls) ≡ false
split_step_full c ls = elim (Bool-cases (c == newline)) [
  | inl k ↦ rw k refl
  | inr k ↦ rw k (prepend_full c ls)
]
  where
    prepend_full : (c : ℕ) (ls : List Text) → is_empty (prepend c ls) ≡ false
    prepend_full c [] = refl
    prepend_full c (l ∷ ls) = refl

pub split_after-ended :
    (a t : Text) → ends_line a ≡ true → split_after (a ++ t) ≡ split_after a ++ split_after t
unfolding split_after ends_line
split_after-ended [] t h = absurd (cc)
split_after-ended (c ∷ []) t h = rw h refl
split_after-ended (c ∷ d ∷ a) t h =
    ap (split_step c) (split_after-ended (d ∷ a) t h)
    ∙ split_step-append c (split_after (d ∷ a)) (split_after t) (split_step_full d (split_after a))

-- A line end, as `line_end` gives it: a newline behind what is none, and nothing but spaces.
pub record IsEnd (nl : Text) : Type 0 where
  pub front : Text
  pub is_front : nl ≡ front ++ newline ∷ []
  pub no_newline : lacks newline front ≡ true
  pub blank : trim_right nl ≡ []
  pub blank_left : trim_left nl ≡ []

pub line_end-IsEnd : (file : Text) → IsEnd (line_end file)
unfolding line_end trim_right trim_left is_space lacks
line_end-IsEnd file =
    if_rule IsEnd _
      (λ e. record {
        front = 13 ∷ [];
        is_front = refl;
        no_newline = refl;
        blank = refl;
        blank_left = refl;
      })
      (λ e. record {
        front = [];
        is_front = refl;
        no_newline = refl;
        blank = refl;
        blank_left = refl;
      })

pub split_after-end :
    (nl l t : Text)
    → IsEnd nl
    → lacks newline l ≡ true
    → split_after (l ++ nl ++ t) ≡ (l ++ nl) ∷ split_after t
split_after-end nl l t e h =
    let whole : l ++ nl ≡ (l ++ e.front) ++ newline ∷ [] =
      ap (λ (x : Text). l ++ x) e.is_front ∙ sym (append_assoc l e.front (newline ∷ [])) in
    ap split_after (ap (λ (x : Text). x ++ t) whole ∙ append_assoc (l ++ e.front) (newline ∷ []) t)
    ∙ split_after-line (l ++ e.front) t (lacks-append newline l e.front h e.no_newline)
    ∙ ap (λ (x : Text). x ∷ split_after t) (sym whole)

pub split_tail_full :
    (p : Text → Bool) (xs : List Text) → All (λ l. p l ≡ false) xs → split_tail p xs ≡ (xs, [])
unfolding split_tail
split_tail_full p [] h = refl
split_tail_full p (x ∷ xs) h = rw (split_tail_full p xs h.1, h.0) (ground arith)

split_tail_all :
    (p : Text → Bool) (xs : List Text) → All (λ l. p l ≡ true) xs → split_tail p xs ≡ ([], xs)
unfolding split_tail
split_tail_all p [] h = refl
split_tail_all p (x ∷ xs) h = rw (split_tail_all p xs h.1, h.0) refl

-- Elements that pass, behind any list, are split off with its own.
pub split_tail-append :
    (p : Text → Bool) (xs ys : List Text)
    → All (λ l. p l ≡ true) ys
    → (split_tail p (xs ++ ys)).0 ≡ (split_tail p xs).0
unfolding split_tail
split_tail-append p [] ys h = ap (λ (r : List Text × List Text). r.0) (split_tail_all p ys h)
split_tail-append p (x ∷ xs) ys h = elim (Bool-cases (is_empty (split_tail p xs).0 && p x)) [
  | inl k ↦ rw (split_tail-append p xs ys h, k) refl
  | inr k ↦ rw (split_tail-append p xs ys h, k) refl
]
