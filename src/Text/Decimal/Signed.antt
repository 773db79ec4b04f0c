-- ===== src/Text/Decimal/Signed.antt =====
-- Signed and padded numbers, read as int64.
use devvm.Prelude.{
  ℕ, zero, suc, ◌+◌, ◌/◌, ◌%◌, ◌^◌, ◌<◌, ◌≤◌, true, false, ◌≡◌, refl, sym, ◌∙◌, ap, [], ◌∷◌, ◌++◌,
  some, leb, ◌&&◌, arith,
}
use devvm.Text.{Text, lacks}
use devvm.Text.Laws.{lacks-append}
use devvm.Text.Decimal.{plus, minus, in_int64, parse_int, atoi, format_nat, padded}
use devvm.Text.Decimal.RoundTrip.{atoi-format_nat, atoi-padded}

pub padded-head : (w n : ℕ) → (d : ℕ) × (t : Text) × (padded (suc w) n ≡ (48 + d) ∷ t) × (d < 10)
unfolding padded
padded-head zero n = (n % 10, [], refl, omega arith)
padded-head (suc w) n =
    let (d, t, e, small) = padded-head w (n / 10) in
    (d, t ++ (48 + n % 10) ∷ [], ap (λ (s : Text). s ++ (48 + n % 10) ∷ []) e, small)

pub parse_int-padded :
    (w n : ℕ) → n < 10 ^ suc w → n < 2 ^ 63 → parse_int (padded (suc w) n) ≡ some (plus n)
unfolding parse_int in_int64
parse_int-padded w n h k =
    let (d, t, e, small) = padded-head w n in
    let value : atoi ((48 + d) ∷ t) ≡ some n = sym (ap atoi e) ∙ atoi-padded w n h in
    rw e (ground (arith, value))

pub parse_int-minus : (n : ℕ) → n ≤ 2 ^ 63 → parse_int (b'-' ∷ format_nat n) ≡ some (minus n)
unfolding parse_int in_int64
parse_int-minus n h = rw (atoi-format_nat n) (ground arith)

pub padded-lacks : (c w n : ℕ) → (leb 48 c && leb c 57) ≡ false → lacks c (padded w n) ≡ true
unfolding padded lacks
padded-lacks c zero n h = refl
padded-lacks c (suc w) n h =
    lacks-append c (padded w (n / 10)) ((48 + n % 10) ∷ []) (padded-lacks c w (n / 10) h)
      (ground arith)
