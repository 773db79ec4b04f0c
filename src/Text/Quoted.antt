-- ===== src/Text/Quoted.antt =====
-- `strconv.Unquote` of a text in double quotes, as a machine that reads what stands between them.
-- An escape by \x or in octal of a number above 127 makes a byte that is no character by itself; it
-- stands here as its number.
use devvm.Prelude.{
  ℕ, zero, suc, ◌+◌, ◌-◌, ◌*◌, Bool, true, ◌&&◌, ◌||◌, [], ◌∷◌, Option, none, some, ltb, leb, ◌==◌,
  if◌then◌else◌,
}
use devvm.Text.{Text, newline}

-- Between characters; behind a backslash; and in an escape of digits: their base, how many are
-- left after the next one, the value so far, and the letter that bounds the value.
pub data Reading : Type 0 where
  plain : Reading
  slash : Reading
  digit : ℕ → ℕ → ℕ → ℕ → Reading

-- The value of a digit; 99 for no digit.
unfoldable pub digit_of : ℕ → ℕ
digit_of c =
    if leb 48 c && leb c 57
    then c - 48
    else if leb 97 c && leb c 102
    then c - 87
    else if leb 65 c && leb c 70
    then c - 55
    else 99

-- Whether the escape may have the value: a byte in octal, a valid code point behind u and U.
unfoldable pub in_escape_range : ℕ → ℕ → Bool
in_escape_range kind v =
    if kind == b'o'
    then leb v 255
    else if kind == b'x'
    then true
    else ltb v 55296 || ltb 57343 v && leb v 1114111

-- What a letter behind the backslash stands for, where that is one character.
unfoldable pub simple_escape : ℕ → Option ℕ
simple_escape c =
    if c == b'a'
    then some 7
    else if c == b'b'
    then some 8
    else if c == b'f'
    then some 12
    else if c == b'n'
    then some 10
    else if c == b'r'
    then some 13
    else if c == b't'
    then some 9
    else if c == b'v'
    then some 11
    else if c == b'\\' || c == b'"'
    then some c
    else none

-- An escape of digits: of x, u, U, and of a first digit in octal.
unfoldable pub digits_escape : ℕ → Option Reading
digits_escape c =
    if c == b'x'
    then some (digit 16 1 0 c)
    else if c == b'u'
    then some (digit 16 3 0 c)
    else if c == b'U'
    then some (digit 16 7 0 c)
    else if leb 48 c && leb c 55
    then some (digit 8 1 (c - 48) b'o')
    else none

-- One character: the state behind it, and what it completes; none where the text is malformed.
unfoldable pub read_slash : ℕ → Option ℕ → Option Reading → Option (Reading × Option ℕ)
read_slash c (some v) o = some (plain, some v)
read_slash c none (some r) = some (r, none)
read_slash c none none = none

unfoldable pub read_char : Reading → ℕ → Option (Reading × Option ℕ)
unfolding digit_of in_escape_range simple_escape digits_escape read_slash
read_char plain c =
    if c == b'\\'
    then some (slash, none)
    else if c == newline || c == b'"'
    then none
    else some (plain, some c)
read_char slash c = read_slash c (simple_escape c) (digits_escape c)
read_char (digit base zero acc kind) c =
    if ltb (digit_of c) base && in_escape_range kind (acc * base + digit_of c)
    then some (plain, some (acc * base + digit_of c))
    else none
read_char (digit base (suc left) acc kind) c =
    if ltb (digit_of c) base
    then some (digit base left (acc * base + digit_of c) kind, none)
    else none

unfoldable pub emit : Option ℕ → Option Text → Option Text
emit o none = none
emit none (some t) = some t
emit (some c) (some t) = some (c ∷ t)

unfoldable pub unquote_end : Reading → Option Text
unquote_end plain = some []
unquote_end slash = none
unquote_end (digit base left acc kind) = none

unfoldable pub unquote_from : Reading → Text → Option Text
unfolding read_char emit unquote_end
unquote_from r [] = unquote_end r
unquote_from r (c ∷ s) = elim (read_char r c) [
  | none ↦ none
  | some (q, o) ↦ emit o (unquote_from q s)
]

-- Of what stands between the quotes.
unfoldable pub unquote : Text → Option Text
unfolding unquote_from
unquote s = unquote_from plain s
