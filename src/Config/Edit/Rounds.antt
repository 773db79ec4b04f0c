-- ===== src/Config/Edit/Rounds.antt =====
-- `splitKey` of internal/config/edit.go: its rounds are enough, since each takes a character.
use devvm.Prelude.{
  ℕ, zero, suc, ◌+◌, ◌<◌, Bool, false, not, ◌&&◌, ◌≡◌, inl, inr, refl, sym, ◌∙◌, ap, List, [], ◌∷◌,
  Option, none, some, ◌==◌, arith, if_rule, if◌then◌else◌, length, length-append, Option-cases,
  Bool-cases,
}
use devvm.Text.{Text, cut, trim_left, trim_right, trim_space}
use devvm.Text.Laws.{cut-some}
use devvm.Text.Trim.{length-trim_space}
use devvm.Text.Quoted.{unquote}
use devvm.Config.Edit.{is_bare_key}
use devvm.Config.Edit.Header.{
  push, basic_end, unquoted, up_to_dot, bare_segment, segment, Split, segments, rejected, led_by,
  after_segment, split_rounds, key_of, split_key,
}

-- What is left of a text of the length, where there is a result, is shorter.
abbrev Shorter : ℕ → Option (Text × Text) → Type 0
Shorter n none = Unit
Shorter n (some (a, r)) = length r < n

push-Shorter : (n c : ℕ) (o : Option (Text × Text)) → Shorter n o → Shorter (suc n) (push c o)
push-Shorter n c none h = tt
push-Shorter n c (some (a, r)) h = omega arith

basic_end-Shorter : (skip : Bool) (s : Text) → Shorter (length s) (basic_end skip s)
unfolding basic_end
basic_end-Shorter skip [] = tt
basic_end-Shorter skip (c ∷ s) =
    if_rule (Shorter (suc (length s))) (not skip && c == b'"') (λ h. omega arith)
      (λ h. push-Shorter (length s) c _ (basic_end-Shorter (not skip && c == b'\\') s))

unquoted-Shorter : (n : ℕ) (o : Option (Text × Text)) → Shorter n o → Shorter n (unquoted o)
unfolding unquoted
unquoted-Shorter n none h = tt
unquoted-Shorter n (some (a, r)) h = unquote_rest (unquote a)
  where
    unquote_rest : (u : Option Text) → Shorter n (elim u [ none ↦ none | some v ↦ some (v, r) ])
    unquote_rest none = tt
    unquote_rest (some v) = h

cut-Shorter : (sep : ℕ) (s : Text) → Shorter (length s) (cut sep s)
unfolding cut
cut-Shorter sep [] = tt
cut-Shorter sep (c ∷ s) = at (cut sep s) (cut-Shorter sep s)
  where
    at :
        (o : Option (Text × Text))
        → Shorter (length s) o
        → Shorter (suc (length s)) (elim o [
          | none ↦ if c == sep then some ([], s) else none
          | some (a, b) ↦ if c == sep then some ([], s) else some (c ∷ a, b)
        ])
    at none h = if_rule (Shorter (suc (length s))) (c == sep) (λ e. omega arith) (λ e. tt)
    at (some (a, b)) h =
        if_rule (Shorter (suc (length s))) (c == sep) (λ e. omega arith) (λ e. omega arith)

length-up_to_dot : (t : Text) → length (up_to_dot t).0 + length (up_to_dot t).1 ≡ length t
unfolding up_to_dot
length-up_to_dot t = elim (Option-cases (cut b'.' t)) [
  | inl k ↦ rw (k, up_to_dot) (omega arith)
  | inr ((a, b), k) ↦
      rw (k, up_to_dot)
        (sym (length-append a (b'.' ∷ b)) ∙ ap length (sym (cut-some b'.' t {a = a} {b = b} k)))
]

bare_segment-Shorter :
    (n : ℕ) (a r : Text) → length a + length r ≡ n → Shorter n (bare_segment (a, r))
unfolding bare_segment is_bare_key trim_space trim_left trim_right
bare_segment-Shorter n [] r h = tt
bare_segment-Shorter n (c ∷ a) r h =
    if_rule (Shorter n) (is_bare_key (trim_space (c ∷ a))) (λ e. omega arith) (λ e. tt)

-- A round takes a character at least.
segment-Shorter : (s : Text) → Shorter (length s) (segment s)
unfolding segment
segment-Shorter [] = tt
segment-Shorter (c ∷ s) =
    if_rule (Shorter (suc (length s))) (c == b'"')
      (λ e. unquoted-Shorter _ _ (longer (length s) _ (basic_end-Shorter false s)))
      (λ e.
        if_rule (Shorter (suc (length s))) (c == b'\'')
          (λ k. longer (length s) _ (cut-Shorter b'\'' s))
          (λ k. bare_segment-Shorter _ _ _ (length-up_to_dot (c ∷ s))))
  where
    longer : (n : ℕ) (o : Option (Text × Text)) → Shorter n o → Shorter (suc n) o
    longer n none h = tt
    longer n (some (a, r)) h = omega arith

-- A loop that came to its own end: the segments of the key, or a refusal.
pub data IsEnded : Split → Type 0 where
  split_up : (segs : List Text) → IsEnded (segments segs)
  turned_down : IsEnded rejected

led_by-IsEnded : (seg : Text) {x : Split} → IsEnded x → IsEnded (led_by seg x)
unfolding led_by
led_by-IsEnded seg (split_up segs) = split_up (seg ∷ segs)
led_by-IsEnded seg turned_down = turned_down

-- Two runs that end alike.
Agree : Split → Split → Type 0
Agree x y = IsEnded x × (x ≡ y)

-- The rounds behind a segment are on a shorter text, so there their number does not matter.
after_segment-Agree :
    (seg r : Text) (f g : Text → Split)
    → ((s : Text) → length s < length r → Agree (f s) (g s))
    → Agree (after_segment seg r f) (after_segment seg r g)
unfolding after_segment Agree
after_segment-Agree seg [] f g h = (split_up (seg ∷ []), refl)
after_segment-Agree seg (c ∷ s) f g h = elim (Bool-cases (c == b'.')) [
  | inl k ↦ let rest = h s (omega arith) in rw k (led_by-IsEnded seg rest.0, ap (led_by seg) rest.1)
  | inr k ↦ rw k (turned_down, refl)
]

round : Option (Text × Text) → (Text → Split) → Split
round o more = elim o [ none ↦ rejected | some (seg, r) ↦ after_segment seg (trim_space r) more ]

round-Agree :
    (o : Option (Text × Text)) (b : ℕ) (f g : Text → Split)
    → Shorter b o
    → ((s : Text) → length s < b → Agree (f s) (g s))
    → Agree (round o f) (round o g)
unfolding round Agree
round-Agree none b f g h k = (turned_down, refl)
round-Agree (some (seg, r)) b f g h k =
    after_segment-Agree seg (trim_space r) f g (λ s l. k s (omega (arith, length-trim_space r)))

split_rounds-Agree :
    (n m : ℕ) (s : Text) → length s < n → length s < m → Agree (split_rounds n s) (split_rounds m s)
unfolding split_rounds round
split_rounds-Agree zero m s h k = absurd (omega arith)
split_rounds-Agree (suc n) zero s h k = absurd (omega arith)
split_rounds-Agree (suc n) (suc m) s h k =
    round-Agree (segment (trim_space s)) (length (trim_space s)) (split_rounds n) (split_rounds m)
      (segment-Shorter (trim_space s))
      (λ t l.
        split_rounds-Agree n m t (omega (arith, length-trim_space s))
          (omega (arith, length-trim_space s)))

-- The loop of splitKey ends: in any number of rounds above the length of the key it comes to its own
-- end, with segments or with a refusal, and never to the end of the rounds; and split_key gives what
-- the loop comes to, the segments or none.
pub split_rounds-split_key :
    (n : ℕ) (s : Text)
    → length s < n
    → IsEnded (split_rounds n s) × (split_key s ≡ key_of (split_rounds n s))
unfolding split_key Agree
split_rounds-split_key n s h =
    let both = split_rounds-Agree n (suc (length s)) s h (omega arith) in
    (both.0, ap key_of (sym both.1))
