-- ===== src/Config/Edit/Quotable.antt =====
-- What `tomlString` writes between its quotes: it is read back by `strconv.Unquote`, and neither the
-- end of a key nor a closing bracket is found inside it.
use devvm.Prelude.{
  ℕ, zero, suc, ◌+◌, ◌*◌, ◌/◌, ◌%◌, ◌<◌, Bool, true, false, ◌||◌, ◌≡◌, inl, inr, refl, ◌∙◌, ap, [],
  ◌∷◌, ◌++◌, Option, none, some, arith, ◌==◌, ==_iff, Bool-cases,
}
use devvm.Text.{Text, lacks, newline}
use devvm.Text.Quoted.{
  Reading, in_escape_range, plain, digit, digit_of, read_char, emit, unquote_from, unquote,
}
use devvm.Config.Edit.{hex_digit, hex4, is_hexed, escape_char, escape_text}
use devvm.Config.Edit.Header.{push, quoted, closing_bracket, basic_end}

abbrev is_special : ℕ → Bool
is_special c = c == b'"' || c == b'\\' || c == newline

-- A text of plain characters and of backslashes with one character behind each.
pub data Quotable : Text → Type 0 where
  nil : Quotable []
  one : {c : ℕ} {s : Text} → is_special c ≡ false → Quotable s → Quotable (c ∷ s)
  pair : {c : ℕ} {s : Text} → (c == newline) ≡ false → Quotable s → Quotable (b'\\' ∷ c ∷ s)

abbrev pub pushes : Text → Option (Text × Text) → Option (Text × Text)
pushes [] o = o
pushes (c ∷ s) o = push c (pushes s o)

pub pushes-some : (a b r : Text) → pushes a (some (b, r)) ≡ some (a ++ b, r)
pushes-some [] b r = refl
pushes-some (c ∷ a) b r = ap (push c) (pushes-some a b r)

pub basic_end-Quotable :
    {a : Text} → Quotable a → (t : Text) → basic_end false (a ++ t) ≡ pushes a (basic_end false t)
unfolding basic_end
basic_end-Quotable nil t = refl
basic_end-Quotable (one h q) t = rw (← basic_end-Quotable q t) (ground arith)
basic_end-Quotable (pair h q) t = rw (← basic_end-Quotable q t) (ground arith)

pub closing_bracket-Quotable :
    {a : Text}
    → Quotable a
    → (t : Text)
    → closing_bracket (quoted b'"') (a ++ t) ≡ pushes a (closing_bracket (quoted b'"') t)
unfolding closing_bracket
closing_bracket-Quotable nil t = refl
closing_bracket-Quotable (one h q) t = rw (← closing_bracket-Quotable q t) (ground arith)
closing_bracket-Quotable (pair h q) t = rw (← closing_bracket-Quotable q t) (ground arith)

pub lacks-Quotable : {a : Text} → Quotable a → lacks newline a ≡ true
unfolding lacks
lacks-Quotable nil = refl
lacks-Quotable (one h q) = ground (arith, lacks-Quotable q)
lacks-Quotable (pair h q) = ground (arith, lacks-Quotable q)

hex_digit_plain : (n : ℕ) → n < 16 → is_special (hex_digit n) ≡ false
unfolding hex_digit
hex_digit_plain n h = ground arith

digit_of-hex_digit : (n : ℕ) → n < 16 → digit_of (hex_digit n) ≡ n
unfolding digit_of hex_digit
digit_of-hex_digit n h = ground arith

mod_lt : (n : ℕ) → n % 16 < 16
mod_lt n = omega arith

hex4-Quotable : (r : ℕ) {s : Text} → Quotable s → Quotable (hex4 r ++ s)
unfolding hex4
hex4-Quotable r q = one (hex_digit_plain _ (mod_lt (r / 4096))) (
    one (hex_digit_plain _ (mod_lt (r / 256)))
      (one (hex_digit_plain _ (mod_lt (r / 16))) (one (hex_digit_plain _ (mod_lt r)) q)))

escape_char-Quotable : (r : ℕ) {s : Text} → Quotable s → Quotable (escape_char r ++ s)
unfolding escape_char
escape_char-Quotable r q = elim (Bool-cases (r == b'"')) [
  | inl a ↦ rw a (pair refl q)
  | inr a ↦ elim (Bool-cases (r == b'\\')) [
    | inl b ↦ rw (a, b) (pair refl q)
    | inr b ↦ elim (Bool-cases (r == newline)) [
      | inl c ↦ rw (a, b, c) (pair refl q)
      | inr c ↦ elim (Bool-cases (r == 9)) [
        | inl d ↦ rw (a, b, c, d) (pair refl q)
        | inr d ↦ elim (Bool-cases (is_hexed r)) [
          | inl e ↦ rw (a, b, c, d, e) (pair refl (hex4-Quotable r q))
          | inr e ↦ rw (a, b, c, d, e) (one (rw (a, b, c) refl) q)
        ]
      ]
    ]
  ]
]

pub escape_text-Quotable : (s : Text) → Quotable (escape_text s)
unfolding escape_text
escape_text-Quotable [] = nil
escape_text-Quotable (r ∷ s) = escape_char-Quotable r (escape_text-Quotable s)

read_digit :
    (left acc kind n : ℕ)
    → n < 16
    → read_char (digit 16 (suc left) acc kind) (hex_digit n)
      ≡ some (digit 16 left (acc * 16 + n) kind, none)
unfolding read_char
read_digit left acc kind n h = rw (digit_of-hex_digit n h) (ground arith)

unquote-step :
    (q : Reading) (c : ℕ) {p : Reading} {o : Option ℕ} (s : Text)
    → read_char q c ≡ some (p, o)
    → unquote_from q (c ∷ s) ≡ emit o (unquote_from p s)
unfolding unquote_from
unquote-step q c s h = rw (h, unquote_from) refl

emit_none : (t : Option Text) → emit none t ≡ t
unfolding emit
emit_none none = refl
emit_none (some t) = refl

unquote-digit :
    (left acc kind n : ℕ) (s : Text)
    → n < 16
    → unquote_from (digit 16 (suc left) acc kind) (hex_digit n ∷ s)
      ≡ unquote_from (digit 16 left (acc * 16 + n) kind) s
unquote-digit left acc kind n s h =
    unquote-step (digit 16 (suc left) acc kind) (hex_digit n) s (read_digit left acc kind n h)
    ∙ emit_none (unquote_from (digit 16 left (acc * 16 + n) kind) s)

read_last_digit :
    (acc n : ℕ)
    → n < 16
    → in_escape_range b'u' (acc * 16 + n) ≡ true
    → read_char (digit 16 zero acc b'u') (hex_digit n) ≡ some (plain, some (acc * 16 + n))
unfolding read_char
read_last_digit acc n h k = rw (digit_of-hex_digit n h, k) (ground arith)

unquote-slash_u :
    (s : Text) → unquote_from plain (b'\\' ∷ b'u' ∷ s) ≡ unquote_from (digit 16 3 0 b'u') s
unfolding unquote_from
unquote-slash_u s = emit_none _ ∙ emit_none _

-- The value of the four digits.
hex_value : ℕ → ℕ
hex_value r = (((0 * 16 + r / 4096 % 16) * 16 + r / 256 % 16) * 16 + r / 16 % 16) * 16 + r % 16

hex_value_of : (r : ℕ) → r < 65536 → hex_value r ≡ r
unfolding hex_value
hex_value_of r h = omega arith

is_hexed_range : (r : ℕ) → is_hexed r ≡ true → (r < 65536) × (in_escape_range b'u' r ≡ true)
unfolding is_hexed in_escape_range
is_hexed_range r h = ground arith

unquote-hex4 :
    (r : ℕ) (s : Text)
    → is_hexed r ≡ true
    → unquote_from plain (b'\\' ∷ b'u' ∷ (hex4 r ++ s)) ≡ emit (some r) (unquote_from plain s)
unfolding hex4 hex_value
unquote-hex4 r s h =
    let low = is_hexed_range r h in
    let same = hex_value_of r low.0 in
    let ok : in_escape_range b'u' (hex_value r) ≡ true = rw same low.1 in
    unquote-slash_u _
    ∙ unquote-digit 2 0 b'u' (r / 4096 % 16) _ (mod_lt (r / 4096))
    ∙ unquote-digit 1 _ b'u' (r / 256 % 16) _ (mod_lt (r / 256))
    ∙ unquote-digit 0 _ b'u' (r / 16 % 16) _ (mod_lt (r / 16))
    ∙ unquote-step (digit 16 zero _ b'u') (hex_digit (r % 16)) s
        (read_last_digit _ (r % 16) (mod_lt r) ok)
    ∙ ap (λ (v : ℕ). emit (some v) (unquote_from plain s)) same

read_plain : (r : ℕ) → is_special r ≡ false → read_char plain r ≡ some (plain, some r)
unfolding read_char
read_plain r h = ground arith

unquote-escape_char :
    (r : ℕ) (s : Text)
    → unquote_from plain (escape_char r ++ s) ≡ emit (some r) (unquote_from plain s)
unfolding escape_char unquote_from
unquote-escape_char r s = elim (Bool-cases (r == b'"')) [
  | inl a ↦ let e = (==_iff r b'"').0 a in rw (a, e) (emit_none _)
  | inr a ↦ elim (Bool-cases (r == b'\\')) [
    | inl b ↦ let e = (==_iff r b'\\').0 b in rw (a, b, e) (emit_none _)
    | inr b ↦ elim (Bool-cases (r == newline)) [
      | inl c ↦ let e = (==_iff r newline).0 c in rw (a, b, c, e) (emit_none _)
      | inr c ↦ elim (Bool-cases (r == 9)) [
        | inl d ↦ let e = (==_iff r 9).0 d in rw (a, b, c, d, e) (emit_none _)
        | inr d ↦ elim (Bool-cases (is_hexed r)) [
          | inl e ↦ rw (a, b, c, d, e) (unquote-hex4 r s e)
          | inr e ↦ rw (a, b, c, d, e) (unquote-step plain r s (read_plain r (rw (a, b, c) refl)))
        ]
      ]
    ]
  ]
]

-- Every text is read back from its escapes.
pub unquote-escape_text : (s : Text) → unquote (escape_text s) ≡ some s
unfolding unquote escape_text emit
unquote-escape_text s = from_plain s
  where
    from_plain : (s : Text) → unquote_from plain (escape_text s) ≡ some s
    from_plain [] = refl
    from_plain (r ∷ s) = unquote-escape_char r (escape_text s) ∙ ap (emit (some r)) (from_plain s)
