-- ===== src/Config/Edit/Safe/Pieces.antt =====
-- The loops of `cutTable` of internal/config/edit.go: the lists that they split put together again.
use devvm.Prelude.{
  Bool, true, false, ◌&&◌, ◌≡◌, inl, inr, refl, sym, ◌∙◌, ap, List, [], ◌∷◌, ◌++◌, Option, none,
  some, ◌==◌, Bool-cases, is_empty, nil_of_empty, All, arith,
}
use mathlib.Core.List.{append_assoc}
use devvm.Text.{Text, newline, prepend}
use devvm.Config.Edit.Header.{table_header}
use devvm.Config.Edit.Cut.{split_after, join_lines, is_header, until_header, split_tail, split_head}

pub join_lines-append : (a b : List Text) → join_lines (a ++ b) ≡ join_lines a ++ join_lines b
unfolding join_lines
join_lines-append [] b = refl
join_lines-append (l ∷ a) b =
    ap (λ (r : Text). l ++ r) (join_lines-append a b)
    ∙ sym (append_assoc l (join_lines a) (join_lines b))

join_lines-prepend : (c : _) (ls : List Text) → join_lines (prepend c ls) ≡ c ∷ join_lines ls
unfolding join_lines
join_lines-prepend c [] = refl
join_lines-prepend c (l ∷ ls) = refl

-- The lines are the file's, whole.
pub join_lines-split_after : (s : Text) → join_lines (split_after s) ≡ s
unfolding join_lines split_after
join_lines-split_after [] = refl
join_lines-split_after (c ∷ s) = elim (Bool-cases (c == newline)) [
  | inl h ↦ rw h (ap (λ (r : Text). c ∷ r) (join_lines-split_after s))
  | inr h ↦
      rw h
        (join_lines-prepend c (split_after s) ∙ ap (λ (r : Text). c ∷ r) (join_lines-split_after s))
]

pub split_tail_parts :
    (p : Text → Bool) (xs : List Text) → xs ≡ (split_tail p xs).0 ++ (split_tail p xs).1
unfolding split_tail
split_tail_parts p [] = refl
split_tail_parts p (x ∷ xs) = elim (Bool-cases (is_empty (split_tail p xs).0 && p x)) [
  | inl h ↦ rw h (
      ap (λ (r : List Text). x ∷ r)
        (split_tail_parts p xs ∙ rw (nil_of_empty (split_tail p xs).0 (ground arith)) refl))
  | inr h ↦ rw h (ap (λ (r : List Text). x ∷ r) (split_tail_parts p xs))
]

pub split_head_parts :
    (p : Text → Bool) (xs : List Text) → xs ≡ (split_head p xs).0 ++ (split_head p xs).1
unfolding split_head
split_head_parts p [] = refl
split_head_parts p (x ∷ xs) = elim (Bool-cases (p x)) [
  | inl h ↦ rw h (ap (λ (r : List Text). x ∷ r) (split_head_parts p xs))
  | inr h ↦ rw h refl
]

pub split_tail_passes :
    (p : Text → Bool) (xs : List Text) → All (λ l. p l ≡ true) (split_tail p xs).1
unfolding split_tail
split_tail_passes p [] = tt
split_tail_passes p (x ∷ xs) = elim (Bool-cases (is_empty (split_tail p xs).0 && p x)) [
  | inl h ↦ rw h (ground arith, split_tail_passes p xs)
  | inr h ↦ rw h (split_tail_passes p xs)
]

abbrev IsBody : Text → Type 0
IsBody l = table_header l ≡ none

pub until_header_parts : (xs : List Text) → xs ≡ (until_header xs).0 ++ (until_header xs).1
unfolding until_header
until_header_parts [] = refl
until_header_parts (x ∷ xs) = elim (Bool-cases (is_header (table_header x))) [
  | inl h ↦ rw h refl
  | inr h ↦ rw h (ap (λ (r : List Text). x ∷ r) (until_header_parts xs))
]

no_header : (k : Option (List Text)) → is_header k ≡ false → k ≡ none
unfolding is_header
no_header none h = refl
no_header (some k) h = absurd (cc)

pub until_header-IsBody : (xs : List Text) → All IsBody (until_header xs).0
unfolding until_header
until_header-IsBody [] = tt
until_header-IsBody (x ∷ xs) = elim (Bool-cases (is_header (table_header x))) [
  | inl h ↦ rw h tt
  | inr h ↦ rw h (no_header (table_header x) h, until_header-IsBody xs)
]
