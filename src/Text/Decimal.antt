-- ===== src/Text/Decimal.antt =====
-- Numbers in decimal: `strconv.Atoi` on digits, `ParseInt` in base 10 with 64 bits, and the verbs
-- `%d` and `%09d` of `fmt`.
pub mod RoundTrip
pub mod Signed
use devvm.Prelude.{
  ℕ, zero, suc, ◌+◌, ◌-◌, ◌*◌, ◌/◌, ◌%◌, ◌^◌, Bool, true, false, ◌&&◌, ◌||◌, [], ◌∷◌, ◌++◌, Option,
  none, some, ltb, leb, ◌==◌, if◌then◌else◌,
}
use devvm.Text.{Text}

-- The digits' value behind `acc`; none at another character.
unfoldable pub digits_value : ℕ → Text → Option ℕ
digits_value acc [] = some acc
digits_value acc (c ∷ s) =
    let rest = digits_value (acc * 10 + (c - 48)) s in if leb 48 c && leb c 57 then rest else none

unfoldable pub atoi : Text → Option ℕ
unfolding digits_value
atoi [] = none
atoi (c ∷ s) = digits_value 0 (c ∷ s)

-- An int64 as its sign and magnitude.
pub data Int64 : Type 0 where
  plus : ℕ → Int64
  minus : ℕ → Int64

-- The value in range: at most `2 ^ 63 - 1`, or `2 ^ 63` behind a minus.
unfoldable pub in_int64 : Bool → Option ℕ → Option Int64
in_int64 negative none = none
in_int64 true (some n) = if ltb (2 ^ 63) n then none else some (minus n)
in_int64 false (some n) = if leb (2 ^ 63) n then none else some (plus n)

-- `strconv.ParseInt(s, 10, 64)`: a sign, and digits.
unfoldable pub parse_int : Text → Option Int64
unfolding atoi in_int64
parse_int [] = none
parse_int (c ∷ s) =
    if c == b'-'
    then in_int64 true (atoi s)
    else if c == b'+'
    then in_int64 false (atoi s)
    else in_int64 false (atoi (c ∷ s))

-- The digits of a number below `10 ^ fuel`, at least one.
unfoldable pub digits : ℕ → ℕ → Text
digits zero n = []
digits (suc fuel) n =
    let more = digits fuel (n / 10) ++ (48 + n % 10) ∷ [] in
    if ltb n 10 then (48 + n) ∷ [] else more

-- `%d` of a number that is not negative: there are never more digits than the number counts, and
-- one.
unfoldable pub format_nat : ℕ → Text
unfolding digits
format_nat n = digits (suc n) n

-- `%0wd` of a number below `10 ^ w`.
unfoldable pub padded : ℕ → ℕ → Text
padded zero n = []
padded (suc w) n = padded w (n / 10) ++ (48 + n % 10) ∷ []
