-- ===== src/Agent/Clock/Unix.antt =====
-- A time that is printed is read back.
use devvm.Prelude.{
  ℕ, ◌^◌, ◌<◌, ◌≤◌, true, false, ◌≡◌, refl, ap, some, leb, ◌&&◌, arith, ◌==◌, length, is_empty,
}
use mathlib.Core.List.{append-nil}
use devvm.Text.{Text, lacks}
use devvm.Text.Laws.{cut-append}
use devvm.Text.Decimal.{Int64, plus, minus, parse_int, padded}
use devvm.Text.Decimal.RoundTrip.{length-padded, parse_int-format_nat, format_nat-lacks}
use devvm.Text.Decimal.Signed.{padded-head, parse_int-padded, parse_int-minus}
use devvm.Agent.Clock.{
  Time, format_int, fmt_unix, zeros, nine_digits, nanos, parse_frac, time_of, parse_unix,
}

-- An int64.
abbrev pub InRange : Int64 → Type 0
InRange (plus n) = n < 2 ^ 63
InRange (minus n) = n ≤ 2 ^ 63

parse_int-format_int : (i : Int64) → InRange i → parse_int (format_int i) ≡ some i
unfolding format_int
parse_int-format_int (plus n) h = parse_int-format_nat n h
parse_int-format_int (minus n) h = parse_int-minus n h

pub format_int-lacks :
    (c : ℕ) (i : Int64)
    → (leb 48 c && leb c 57) ≡ false
    → (b'-' == c) ≡ false
    → lacks c (format_int i) ≡ true
unfolding format_int lacks
format_int-lacks c (plus n) h k = format_nat-lacks c n h
format_int-lacks c (minus n) h k = rw k (format_nat-lacks c n h)

nine_digits-full : (s : Text) → length s ≡ 9 → nine_digits s ≡ s
unfolding nine_digits zeros
nine_digits-full s h = rw h (rw h (append-nil s))

parse_frac-padded : (n : ℕ) → n < 10 ^ 9 → parse_frac (padded 9 n) ≡ some n
unfolding parse_frac nanos
parse_frac-padded n h =
    let (d, t, e, small) = padded-head 8 n in
    let full : is_empty (padded 9 n) ≡ false = ap is_empty e in
    let nine = nine_digits-full (padded 9 n) (length-padded 9 n) in
    rw (full, nine, parse_int-padded 8 n h (omega arith)) refl

-- A time whose seconds are an int64, before or after 1970, and whose nanoseconds are below 10^9, is
-- printed as a decimal that parses to it.
pub parse_unix-fmt_unix :
    (t : Time) → InRange t.sec → t.nsec < 10 ^ 9 → parse_unix (fmt_unix t) ≡ some t
unfolding parse_unix fmt_unix time_of
parse_unix-fmt_unix t h k =
    let parts =
      cut-append b'.' (format_int t.sec) (padded 9 t.nsec)
        (format_int-lacks b'.' t.sec refl refl) in
    rw (parts, parse_int-format_int t.sec h, parse_frac-padded t.nsec k) refl
