-- ===== src/Text/Words.antt =====
-- The words of a text, and the text with its spaces made single: `strings.Fields`.
use devvm.Prelude.{
  ℕ, Bool, true, false, not, ◌&&◌, ◌≡◌, inl, inr, refl, subst, List, [], ◌∷◌, ◌++◌, arith, ◌==◌,
  Bool-cases, is_empty,
}
use devvm.Text.{
  Text, is_space, trim_right, lacks, newline, end_word, fields_from, fields, join_words, one_line,
}
use devvm.Text.Laws.{lacks-append, trim_right-between}

unfoldable pub no_space : Text → Bool
no_space [] = true
no_space (c ∷ s) = not (is_space c) && no_space s

abbrev IsWord : Text → Type 0
IsWord w = (no_space w ≡ true) × (is_empty w ≡ false)

data Words : List Text → Type 0 where
  none : Words []
  word : (w : Text) (ws : List Text) → IsWord w → Words ws → Words (w ∷ ws)

no_space-append :
    (a : Text) (c : ℕ) → no_space a ≡ true → is_space c ≡ false → no_space (a ++ c ∷ []) ≡ true
unfolding no_space
no_space-append [] c h k = ground arith
no_space-append (x ∷ a) c h k = ground (arith, no_space-append a c)

end_word-Words :
    (cur : Text) (ws : List Text) → no_space cur ≡ true → Words ws → Words (end_word cur ws)
unfolding end_word
end_word-Words [] ws h k = k
end_word-Words (c ∷ cur) ws h k = word (c ∷ cur) ws (h, refl) k

fields_from-Words : (cur s : Text) → no_space cur ≡ true → Words (fields_from cur s)
unfolding fields_from no_space
fields_from-Words cur [] h = end_word-Words cur [] h none
fields_from-Words cur (c ∷ s) h = elim (Bool-cases (is_space c)) [
  | inl e ↦
      rw (e, fields_from) (end_word-Words cur (fields_from [] s) h (fields_from-Words [] s refl))
  | inr e ↦ rw (e, fields_from) (fields_from-Words (cur ++ c ∷ []) s (no_space-append cur c h e))
]

newline_apart : (c : ℕ) → is_space c ≡ false → (c == newline) ≡ false
unfolding is_space
newline_apart c h = elim (Bool-cases (c == newline)) [
  | inr e ↦ e
  | inl e ↦
      let at : true ≡ false =
        subst (λ x. is_space x ≡ false) {x = c} {y = newline} (ground arith) h in
      absurd (cc)
]

pub no_space-lacks : (w : Text) → no_space w ≡ true → lacks newline w ≡ true
unfolding no_space lacks
no_space-lacks [] h = refl
no_space-lacks (c ∷ w) h = ground (arith, no_space-lacks w, newline_apart c)

pub no_space-head :
    (c : ℕ) (w : Text) → no_space (c ∷ w) ≡ true → (is_space c ≡ false) × (no_space w ≡ true)
unfolding no_space
no_space-head c w h = (ground arith, ground arith)

trim_right-cons :
    (c : ℕ) (w : Text) → is_space c ≡ false → trim_right w ≡ w → trim_right (c ∷ w) ≡ c ∷ w
unfolding trim_right
trim_right-cons c w h k = rw (k, h) refl

pub no_space-trim_right : (w : Text) → no_space w ≡ true → trim_right w ≡ w
unfolding trim_right
no_space-trim_right [] h = refl
no_space-trim_right (c ∷ w) h =
    let (e, k) = no_space-head c w h in trim_right-cons c w e (no_space-trim_right w k)

-- A line of words: nothing ends the line early, and nothing is trimmed from its end.
abbrev pub IsLine : Text → Type 0
IsLine s = (lacks newline s ≡ true) × (trim_right s ≡ s)

is_empty_front : (w s : Text) → is_empty w ≡ false → is_empty (w ++ s) ≡ false
is_empty_front [] s h = absurd (cc)
is_empty_front (c ∷ w) s h = refl

join_words-is_empty :
    (w : Text) (ws : List Text) → Words (w ∷ ws) → is_empty (join_words (w ∷ ws)) ≡ false
unfolding join_words
join_words-is_empty w [] (word _ _ (h, k) r) = k
join_words-is_empty w (v ∷ ws) (word _ _ (h, k) r) = is_empty_front w (b' ' ∷ join_words (v ∷ ws)) k

join_words-IsLine : (ws : List Text) → Words ws → IsLine (join_words ws)
unfolding join_words lacks trim_right
join_words-IsLine [] none = (refl, refl)
join_words-IsLine (w ∷ []) (word _ _ (h, k) r) = (no_space-lacks w h, no_space-trim_right w h)
join_words-IsLine (w ∷ v ∷ ws) (word _ _ (h, k) r) =
    let (l, t) = join_words-IsLine (v ∷ ws) r in
    let full = join_words-is_empty v ws r in
    (
      lacks-append newline w (b' ' ∷ join_words (v ∷ ws)) (no_space-lacks w h) l,
      trim_right-between w b' ' (join_words (v ∷ ws)) full t,
    )

pub one_line-IsLine : (s : Text) → IsLine (one_line s)
unfolding one_line fields no_space
one_line-IsLine s = join_words-IsLine (fields s) (fields_from-Words [] s refl)
