-- ===== src/Agent/Clock.antt =====
-- internal/agentrpc/clock.go: the exchange in which the host sends its clock and the guest answers.
-- A time is its Unix seconds, an int64, and nanoseconds. The printing and the parsing of a duration
-- are the time package's, arguments here; a stream is the line that goes over it.
pub mod Unix
pub mod Line
pub mod Exchange
use devvm.Prelude.{
  ℕ, zero, suc, ◌+◌, ◌-◌, ◌*◌, ◌^◌, Bool, true, false, not, ◌&&◌, ◌||◌, List, [], ◌∷◌, ◌++◌, Option,
  none, some, ltb, leb, ◌==◌, if◌then◌else◌, is_empty, length,
}
use devvm.Text.{Text, newline, codes, cut, has_prefix, trim_space, one_line}
use devvm.Text.Decimal.{Int64, plus, minus, parse_int, format_nat, padded}

pub record Time : Type 0 where
  pub sec : Int64
  pub nsec : ℕ

-- `%d` of an int64.
unfoldable pub format_int : Int64 → Text
unfolding format_nat
format_int (plus n) = format_nat n
format_int (minus n) = b'-' ∷ format_nat n

-- `fmtUnix`.
unfoldable pub fmt_unix : Time → Text
unfolding format_int padded
fmt_unix t = format_int t.sec ++ b'.' ∷ padded 9 t.nsec

-- `strings.Repeat("0", n)`.
unfoldable pub zeros : ℕ → Text
zeros zero = []
zeros (suc n) = b'0' ∷ zeros n

unfoldable pub take_text : ℕ → Text → Text
take_text zero s = []
take_text (suc n) [] = []
take_text (suc n) (c ∷ s) = c ∷ take_text n s

-- The fraction at nine digits: cut, or filled up.
unfoldable pub nine_digits : Text → Text
unfolding zeros take_text
nine_digits frac =
    let f = if ltb 9 (length frac) then take_text 9 frac else frac in f ++ zeros (9 - length f)

unfoldable pub nanos : Option Int64 → Option ℕ
nanos none = none
nanos (some (plus n)) = some n
nanos (some (minus n)) = if n == 0 then some 0 else none

unfoldable pub parse_frac : Text → Option ℕ
unfolding nine_digits nanos parse_int
parse_frac frac = if is_empty frac then some 0 else nanos (parse_int (nine_digits frac))

abbrev cut_or : Text → Option (Text × Text) → Text × Text
cut_or s none = (s, [])
cut_or s (some p) = p

unfoldable pub time_of : Option Int64 → Option ℕ → Option Time
time_of none n = none
time_of (some s) none = none
time_of (some s) (some n) = some (record { sec = s; nsec = n })

-- `parseUnix`.
unfoldable pub parse_unix : Text → Option Time
unfolding parse_frac time_of cut
parse_unix s = let p = cut_or s (cut b'.' s) in time_of (parse_int p.0) (parse_frac p.1)

pub record ClockReply {ℓ} (D : Type ℓ) : Type ℓ where
  pub guest : Time
  pub drift : D
  pub result : Text

-- What the code relies on of `time.Duration`.
pub record Durations {ℓ} (D : Type ℓ) : Type ℓ where
  pub show : D → Text
  pub parse : Text → Option D

abbrev pub guest_key : Text
guest_key = codes "guest="

abbrev pub drift_key : Text
drift_key = codes "drift="

-- The three fields of a line, if it has them: `SplitN(line, " ", 3)`.
unfoldable pub three_fields : Text → Option (Text × Text × Text)
unfolding cut
three_fields line = elim (cut b' ' line) [
  | none ↦ none
  | some (a, rest) ↦ elim (cut b' ' rest) [ none ↦ none | some (b, c) ↦ some (a, b, c) ]
]

-- `strings.TrimPrefix`, after the prefix is known to be there.
unfoldable pub drop_text : Text → Text → Text
drop_text [] s = s
drop_text (c ∷ p) [] = []
drop_text (c ∷ p) (x ∷ s) = drop_text p s

-- How many bytes a character takes in UTF-8.
unfoldable pub byte_width : ℕ → ℕ
byte_width c = if ltb c 128 then 1 else if ltb c 2048 then 2 else if ltb c 65536 then 3 else 4

unfoldable pub byte_length : Text → ℕ
unfolding byte_width
byte_length [] = 0
byte_length (c ∷ s) = byte_width c + byte_length s

-- What a character cut after `n` of its bytes reads as: a replacement character for each.
unfoldable pub cut_bytes : ℕ → Text
cut_bytes zero = []
cut_bytes (suc n) = 65533 ∷ cut_bytes n

-- `maxClockLine`.
abbrev pub max_clock_line : ℕ
max_clock_line = 2 ^ 10

-- The first `n` bytes of a stream: `io.LimitReader`.
unfoldable pub limited : ℕ → Text → Text
unfolding byte_width cut_bytes
limited n [] = []
limited n (c ∷ s) =
    let rest = limited (n - byte_width c) s in
    if leb (byte_width c) n then c ∷ rest else cut_bytes n

-- `ReadString('\n')`: up to a line end, or to the end of the stream.
unfoldable pub read_line : Text → Text
read_line [] = []
read_line (c ∷ s) = let rest = read_line s in if c == newline then c ∷ [] else c ∷ rest

-- `WriteHeader`.
abbrev pub header_line : Text → Text
header_line s = s ++ newline ∷ []

module _ {ℓ} {D : Type ℓ} (ds : Durations D) where
  -- `ClockReply.String`.
  unfoldable pub reply_line : ClockReply D → Text
  unfolding fmt_unix
  reply_line r =
      (guest_key ++ fmt_unix r.guest)
      ++ (b' ' ∷ ((drift_key ++ ds.show r.drift) ++ (b' ' ∷ r.result)))

  unfoldable pub reply_of : Option Time → Option D → Text → Option (ClockReply D)
  reply_of none d result = none
  reply_of (some g) none result = none
  reply_of (some g) (some d) result = some (record { guest = g; drift = d; result = result })

  unfoldable pub parse_fields : Option (Text × Text × Text) → Option (ClockReply D)
  unfolding has_prefix drop_text parse_unix reply_of
  parse_fields none = none
  parse_fields (some (a, b, c)) =
      if has_prefix guest_key a && has_prefix drift_key b
      then reply_of (parse_unix (drop_text guest_key a)) (ds.parse (drop_text drift_key b)) c
      else none

  -- `parseClockReply`.
  unfoldable pub parse_clock_reply : Text → Option (ClockReply D)
  unfolding three_fields parse_fields
  parse_clock_reply line = parse_fields (three_fields line)

  -- `guestClock`: the line that answers the host's time, with the guest's clock and the verdict of
  -- the setter; `wrong` is the error of a time that does not parse, and `zero_drift` the zero duration.
  unfoldable pub guest_reply : D → Time → Text → (Time → ClockReply D) → Option Time → ClockReply D
  guest_reply zero_drift clock wrong h none = record {
    guest = clock;
    drift = zero_drift;
    result = wrong;
  }
  guest_reply zero_drift clock wrong h (some host) = h host

  unfoldable pub guest_clock : D → Time → Text → (Time → ClockReply D) → Text → Text
  unfolding guest_reply reply_line one_line
  guest_clock zero_drift clock wrong h arg =
      let r = guest_reply zero_drift clock wrong h (parse_unix (trim_space arg)) in
      header_line (reply_line (record r { result = one_line r.result }))

  -- `SyncClock`, over a stream that carries `guest`'s bytes for the line that it is sent; none is an
  -- error, of a reply that does not parse or of an empty one.
  unfoldable pub sync_clock : (Text → Text) → Time → Option (ClockReply D)
  unfolding fmt_unix parse_clock_reply trim_space read_line
  sync_clock guest now =
      let line = trim_space (read_line (limited max_clock_line (guest (fmt_unix now)))) in
      if is_empty line then none else parse_clock_reply line
