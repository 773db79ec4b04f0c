-- ===== src/Tests/Reach.antt =====
-- Runs of the reach cache, and its theorems at small inputs.
use devvm.Prelude.{ℕ, ◌^◌, ◌<◌, false, ◌≡◌, refl, [], ◌∷◌, Option, none, arith}
use devvm.Text.{
  Text, codes, eq_text, one_line, fields, fields_from, end_word, join_words, is_space, split_lines,
  cut, trim_space,
}
use devvm.Text.Decimal.{format_nat, parse_int}
use devvm.Reach.{Entry, unreachable, known_state, read, parse, text, record_reached, plain}
use devvm.Reach.RoundTrip.{parse-text}
use devvm.Reach.Since.{IsProbe, done, probe, Reads, write_all, write_all-since}

abbrev probed : ℕ → Text → Entry
probed t why = record {
  state = unreachable;
  verified = t;
  since = 0;
  how = codes "probe";
  reason = why;
}

abbrev timed_out : Entry
timed_out = probed 1760710000 (codes "connect  timed out ")

is_written :
    text timed_out
    ≡ codes "state=unreachable\nverified=1760710000\nhow=probe\nreason=connect timed out\n"
unfolding text format_nat one_line
is_written = refl

garbled : (parse (codes "state=up\nverified=x\n how=scp \nreason\n")).how ≡ codes "scp"
unfolding parse split_lines cut trim_space
garbled = refl

status_field :
    plain (read (record_reached false 1760710000 (codes "scp") none))
    ≡ codes "verified=1760710000:scp"
unfolding plain read record_reached split_lines format_nat one_line cut trim_space parse_int
status_field = refl

parse-text_example :
    parse (text timed_out) ≡ record timed_out { reason = codes "connect timed out" }
unfolding known_state eq_text one_line fields fields_from end_word join_words is_space
parse-text_example = parse-text timed_out refl (omega arith) (omega arith)

was_reachable : Option Text
was_reachable = record_reached false 1760700000 (codes "ssh") none

probed-IsProbe : (t : ℕ) (h : t < 2 ^ 63) (k : 0 < t) → IsProbe unreachable (probed t [])
probed-IsProbe t h k = (refl, refl, (λ e. omega arith), h)

new_state : eq_text (read was_reachable).state unreachable ≡ false
unfolding was_reachable eq_text read record_reached split_lines format_nat one_line cut trim_space
    parse_int
new_state = refl

write_all-since_example : Reads unreachable 1760709400 (
    write_all
      (probed 1760709400 [] ∷ probed 1760709700 [] ∷ probed 1760710000 [] ∷ [])
      was_reachable)
unfolding known_state eq_text
write_all-since_example =
    write_all-since unreachable (probed 1760709400 [])
      (probed 1760709700 [] ∷ probed 1760710000 [] ∷ []) was_reachable refl new_state
      (probe (probed-IsProbe 1760709400 (omega arith) (omega arith)) (
        probe (probed-IsProbe 1760709700 (omega arith) (omega arith))
          (probe (probed-IsProbe 1760710000 (omega arith) (omega arith)) done)))
