-- ===== src/Tests/Clock.antt =====
-- A clock exchange, with durations printed as a number of seconds.
use devvm.Prelude.{zero, suc, [], ◌∷◌, ℕ, ◌≡◌, refl, some, arith}
use devvm.Text.{Text, newline, codes, one_line, fields, fields_from, end_word, join_words, is_space}
use devvm.Text.Decimal.{plus, atoi, format_nat}
use devvm.Text.Decimal.RoundTrip.{atoi-format_nat, format_nat-lacks}
use devvm.Agent.Clock.{
  byte_length, limited, reply_line, Time, fmt_unix, parse_unix, ClockReply, Durations, sync_clock,
  guest_clock,
}
use devvm.Agent.Clock.Exchange.{IsPrinted, FitsLine, answer_of, sync_clock-guest_clock}

abbrev seconds : Durations ℕ
seconds = record { show = format_nat; parse = atoi }

abbrev host_now : Time
host_now = record { sec = plus 1760710000; nsec = 5000000 }

abbrev guest_now : Time
guest_now = record { sec = plus 1760709997; nsec = 0 }

abbrev steps_on : Time → ClockReply ℕ
steps_on host = record { guest = guest_now; drift = 3; result = codes "stepped" }

printed : fmt_unix host_now ≡ codes "1760710000.005000000"
unfolding fmt_unix format_nat
printed = refl

short_fraction : parse_unix (codes "12.5") ≡ some (record { sec = plus 12; nsec = 500000000 })
unfolding parse_unix
short_fraction = refl

three-IsPrinted : IsPrinted seconds 3
three-IsPrinted = (format_nat-lacks b' ' 3 refl, format_nat-lacks newline 3 refl, atoi-format_nat 3)

steps_on-FitsLine : FitsLine seconds (steps_on host_now)
unfolding byte_length reply_line fmt_unix format_nat one_line fields fields_from end_word join_words
    is_space
steps_on-FitsLine = omega arith

-- An answer above the bound is cut.
abbrev letters : ℕ → Text
letters zero = []
letters (suc n) = b'x' ∷ letters n

long_cut : limited 4 (letters 9) ≡ letters 4
unfolding limited
long_cut = refl

wide_cut : limited 4 (b'x' ∷ 8364 ∷ 8364 ∷ []) ≡ b'x' ∷ 8364 ∷ []
unfolding limited
wide_cut = refl

sync_clock-guest_clock_example :
    sync_clock seconds
      (guest_clock seconds 0 guest_now (codes "error: bad unix time") steps_on)
      host_now
    ≡ some (answer_of seconds (steps_on host_now))
unfolding one_line fields fields_from end_word join_words is_space
sync_clock-guest_clock_example =
    sync_clock-guest_clock seconds 0 guest_now (codes "error: bad unix time") steps_on host_now
      (omega arith, omega arith) (omega arith, omega arith) three-IsPrinted refl steps_on-FitsLine
