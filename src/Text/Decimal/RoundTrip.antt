-- ===== src/Text/Decimal/RoundTrip.antt =====
-- A number that is printed is read back.
use devvm.Prelude.{
  leb, ◌&&◌, false, ℕ, zero, suc, ◌+◌, ◌*◌, ◌/◌, ◌%◌, ◌^◌, ◌<◌, true, ◌≡◌, inl, inr, refl, sym, ◌∙◌,
  ap, [], ◌∷◌, ◌++◌, some, arith, ltb, Bool-cases, length, length-append,
}
use mathlib.Core.List.{append_assoc, append-nil}
use native.Mathlib.Omega.{pow_step}
use devvm.Text.{Text, lacks}
use devvm.Text.Laws.{lacks-append}
use devvm.Text.Decimal.{digits_value, atoi, plus, parse_int, digits, format_nat, padded, in_int64}

digits_value-digit :
    (acc d : ℕ) (s : Text)
    → d < 10
    → digits_value acc ((48 + d) ∷ s) ≡ digits_value (acc * 10 + d) s
unfolding digits_value
digits_value-digit acc d s h = ground arith

-- Reading the digits of a number gives the number, and goes on behind them.
digits_value-digits :
    (fuel n : ℕ) (s : Text) → n < fuel → digits_value 0 (digits fuel n ++ s) ≡ digits_value n s
unfolding digits
digits_value-digits zero n s h = absurd (omega arith)
digits_value-digits (suc fuel) n s h = elim (Bool-cases (ltb n 10)) [
  | inl small ↦
      rw small (digits_value-digit 0 n s (ground arith) ∙ ap (λ m. digits_value m s) (omega arith))
  | inr large ↦
      rw (large, append_assoc)
        (digits_value-digits fuel (n / 10) ((48 + n % 10) ∷ s) (ground arith)
          ∙ digits_value-digit (n / 10) (n % 10) s (omega arith)
          ∙ ap (λ m. digits_value m s) (omega arith))
]

-- Reading a padded number: it takes the width's number of digits.
digits_value-padded :
    (w n acc : ℕ) (s : Text)
    → n < 10 ^ w
    → digits_value acc (padded w n ++ s) ≡ digits_value (acc * 10 ^ w + n) s
unfolding padded
digits_value-padded zero n acc s h = ap (λ m. digits_value m s) (omega arith)
digits_value-padded (suc w) n acc s h =
    let p = pow_step 10 w in
    rw append_assoc (
      digits_value-padded w (n / 10) acc ((48 + n % 10) ∷ s) (omega (arith, p))
      ∙ digits_value-digit (acc * 10 ^ w + n / 10) (n % 10) s (omega arith)
      ∙ ap (λ m. digits_value m s) (omega (arith, ap (λ (t : ℕ). acc * t) p)))

digits-head :
    (fuel n : ℕ) (s : Text)
    → n < fuel
    → (d : ℕ) × (t : Text) × (digits fuel n ++ s ≡ (48 + d) ∷ t) × (d < 10)
unfolding digits
digits-head zero n s h = absurd (omega arith)
digits-head (suc fuel) n s h = elim (Bool-cases (ltb n 10)) [
  | inl small ↦ (n, s, rw small refl, ground arith)
  | inr large ↦
      rw (large, append_assoc) (digits-head fuel (n / 10) ((48 + n % 10) ∷ s) (ground arith))
]

atoi-cons : (c : ℕ) (s : Text) → atoi (c ∷ s) ≡ digits_value 0 (c ∷ s)
unfolding atoi
atoi-cons c s = refl

digits_value-nil : (n : ℕ) → digits_value n [] ≡ some n
unfolding digits_value
digits_value-nil n = refl

-- What follows the printed number is what stands behind its first digit.
pub format_nat-head :
    (n : ℕ) (s : Text) → (d : ℕ) × (t : Text) × (format_nat n ++ s ≡ (48 + d) ∷ t) × (d < 10)
unfolding format_nat
format_nat-head n s = digits-head (suc n) n s (omega arith)

digits_value-format_nat : (n : ℕ) (s : Text) → digits_value 0 (format_nat n ++ s) ≡ digits_value n s
unfolding format_nat
digits_value-format_nat n s = digits_value-digits (suc n) n s (omega arith)

-- A number that is printed is read back.
pub atoi-format_nat : (n : ℕ) → atoi (format_nat n) ≡ some n
atoi-format_nat n =
    let (d, t, e, _) = format_nat-head n [] in
    let text : format_nat n ≡ (48 + d) ∷ t = sym (append-nil (format_nat n)) ∙ e in
    ap atoi text
    ∙ atoi-cons (48 + d) t
    ∙ ap (digits_value 0) (sym e)
    ∙ digits_value-format_nat n []
    ∙ digits_value-nil n

pub parse_int-format_nat : (n : ℕ) → n < 2 ^ 63 → parse_int (format_nat n) ≡ some (plus n)
unfolding parse_int in_int64
parse_int-format_nat n h =
    let (d, t, e, small) = format_nat-head n [] in
    let text : format_nat n ≡ (48 + d) ∷ t = sym (append-nil (format_nat n)) ∙ e in
    let value : atoi ((48 + d) ∷ t) ≡ some n = sym (ap atoi text) ∙ atoi-format_nat n in
    rw text (ground (arith, value))

-- A padded number has its width, and is read back behind any number of digits.
pub length-padded : (w n : ℕ) → length (padded w n) ≡ w
unfolding padded
length-padded zero n = refl
length-padded (suc w) n =
    length-append (padded w (n / 10)) ((48 + n % 10) ∷ []) ∙ omega (arith, length-padded w (n / 10))

atoi_of_length : (s : Text) (k : ℕ) → length s ≡ suc k → atoi s ≡ digits_value 0 s
unfolding atoi
atoi_of_length [] k h = absurd (omega arith)
atoi_of_length (c ∷ s) k h = refl

pub atoi-padded : (w n : ℕ) → n < 10 ^ suc w → atoi (padded (suc w) n) ≡ some n
atoi-padded w n h =
    let text = padded (suc w) n in
    atoi_of_length text w (length-padded (suc w) n)
    ∙ ap (digits_value 0) (sym (append-nil text))
    ∙ digits_value-padded (suc w) n 0 [] h
    ∙ digits_value-nil (0 * 10 ^ suc w + n)
    ∙ ap some (omega arith)

-- The characters of a printed number are digits.
digits-lacks :
    (c fuel n : ℕ) → (leb 48 c && leb c 57) ≡ false → n < fuel → lacks c (digits fuel n) ≡ true
unfolding digits lacks
digits-lacks c zero n h k = refl
digits-lacks c (suc fuel) n h k = elim (Bool-cases (ltb n 10)) [
  | inl small ↦ rw small (ground arith)
  | inr large ↦ rw large (
      lacks-append c (digits fuel (n / 10)) ((48 + n % 10) ∷ [])
        (digits-lacks c fuel (n / 10) h (ground arith)) (ground arith))
]

pub format_nat-lacks : (c n : ℕ) → (leb 48 c && leb c 57) ≡ false → lacks c (format_nat n) ≡ true
unfolding format_nat
format_nat-lacks c n h = digits-lacks c (suc n) n h (omega arith)

-- A printed number ends in a digit.
pub format_nat-last :
    (n : ℕ) → (s : Text) × (d : ℕ) × (format_nat n ≡ s ++ (48 + d) ∷ []) × (d < 10)
unfolding format_nat digits
format_nat-last n = elim (Bool-cases (ltb n 10)) [
  | inl small ↦ ([], n, rw small refl, ground arith)
  | inr large ↦ (digits n (n / 10), n % 10, rw large refl, omega arith)
]
