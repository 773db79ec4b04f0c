-- ===== src/Agent/Clock/Exchange.antt =====
-- The whole exchange: what the host makes of the guest's answer to its clock.
use devvm.Prelude.{
  ℕ, ◌+◌, ◌/◌, ◌%◌, ◌^◌, ◌<◌, ◌≤◌, true, false, ◌≡◌, refl, sym, ◌∙◌, ap, [], ◌∷◌, ◌++◌, Option,
  none, some, arith, ◌==◌, if◌then◌else◌, is_empty, leb, ◌&&◌,
}
use mathlib.Core.List.{append_assoc}
use devvm.Text.{
  Text, newline, lacks, has_prefix, is_space, trim_left, trim_right, trim_space, one_line,
}
use devvm.Text.Laws.{
  lacks-append, cut-append, trim_right-append, trim_right-last, trim_right-between,
  trim_right-blank,
}
use devvm.Text.Words.{one_line-IsLine}
use devvm.Text.Decimal.{Int64, plus, minus, format_nat, padded}
use devvm.Text.Decimal.RoundTrip.{format_nat-head}
use devvm.Text.Decimal.Signed.{padded-lacks}
use devvm.Agent.Clock.{
  Time, format_int, fmt_unix, parse_unix, ClockReply, Durations, guest_key, drift_key, reply_line,
  reply_of, three_fields, drop_text, parse_fields, parse_clock_reply, guest_reply, guest_clock,
  sync_clock, byte_length, limited, read_line, header_line, max_clock_line,
}
use devvm.Agent.Clock.Line.{read_line-limited}
use devvm.Agent.Clock.Unix.{InRange, format_int-lacks, parse_unix-fmt_unix}

-- A time that can be printed and read back.
abbrev pub IsTime : Time → Type 0
IsTime t = InRange t.sec × (t.nsec < 10 ^ 9)

lacks_one : (c x : ℕ) → (x == c) ≡ false → lacks c (x ∷ []) ≡ true
unfolding lacks
lacks_one c x h = rw h refl

digit_space : (d : ℕ) → d < 10 → is_space (48 + d) ≡ false
unfolding is_space
digit_space d h = ground arith

trim_left-minus : (s : Text) → trim_left (b'-' ∷ s) ≡ b'-' ∷ s
unfolding trim_left is_space
trim_left-minus s = refl

fmt_unix-lacks :
    (c : ℕ) (t : Time)
    → (leb 48 c && leb c 57) ≡ false
    → (b'-' == c) ≡ false
    → (b'.' == c) ≡ false
    → lacks c (fmt_unix t) ≡ true
unfolding fmt_unix
fmt_unix-lacks c t h k l =
    lacks-append c (format_int t.sec) (b'.' ∷ padded 9 t.nsec) (format_int-lacks c t.sec h k)
      (dot (padded-lacks c 9 t.nsec h))
  where
    dot : lacks c (padded 9 t.nsec) ≡ true → lacks c (b'.' ∷ padded 9 t.nsec) ≡ true
    dot e = lacks-append c (b'.' ∷ []) (padded 9 t.nsec) (lacks_one c b'.' l) e

trim_left-digit : (d : ℕ) (s : Text) → d < 10 → trim_left ((48 + d) ∷ s) ≡ (48 + d) ∷ s
unfolding trim_left
trim_left-digit d s h = rw (digit_space d h) refl

trim_left-format_int : (i : Int64) (s : Text) → trim_left (format_int i ++ s) ≡ format_int i ++ s
unfolding format_int
trim_left-format_int (plus n) s =
    let (d, t, e, small) = format_nat-head n s in rw e (trim_left-digit d t small)
trim_left-format_int (minus n) s = trim_left-minus (format_nat n ++ s)

fmt_unix-trim_space : (t : Time) → trim_space (fmt_unix t) ≡ fmt_unix t
unfolding fmt_unix trim_space padded
fmt_unix-trim_space t =
    ap trim_right (trim_left-format_int t.sec (b'.' ∷ padded 9 t.nsec))
    ∙ trim_right-append (format_int t.sec) (b'.' ∷ padded 9 t.nsec) refl (
        trim_right-last (b'.' ∷ padded 8 (t.nsec / 10)) (48 + t.nsec % 10)
          (digit_space (t.nsec % 10) (omega arith)))

three_fields-join :
    (a b c : Text)
    → lacks b' ' a ≡ true
    → lacks b' ' b ≡ true
    → three_fields (a ++ (b' ' ∷ (b ++ (b' ' ∷ c)))) ≡ some (a, b, c)
unfolding three_fields
three_fields-join a b c h k =
    rw (cut-append b' ' a (b ++ (b' ' ∷ c)) h, three_fields)
      (rw (cut-append b' ' b c k, three_fields) refl)

trim_right-line :
    (a b r : Text)
    → is_empty r ≡ false
    → trim_right r ≡ r
    → trim_right (a ++ (b' ' ∷ (b ++ (b' ' ∷ r)))) ≡ a ++ (b' ' ∷ (b ++ (b' ' ∷ r)))
trim_right-line a b r h k =
    let grouped = append_assoc a (b' ' ∷ b) (b' ' ∷ r) in
    sym (ap trim_right grouped) ∙ trim_right-between (a ++ b' ' ∷ b) b' ' r h k ∙ grouped

key_lacks :
    ((lacks b' ' guest_key ≡ true) × (lacks b' ' drift_key ≡ true))
    × ((lacks newline guest_key ≡ true) × (lacks newline drift_key ≡ true))
unfolding lacks
key_lacks = ((refl, refl), (refl, refl))

lacks-line :
    (c : ℕ) (a b r : Text)
    → (b' ' == c) ≡ false
    → lacks c a ≡ true
    → lacks c b ≡ true
    → lacks c r ≡ true
    → lacks c (a ++ (b' ' ∷ (b ++ (b' ' ∷ r)))) ≡ true
lacks-line c a b r h i j k =
    let one = lacks_one c b' ' h in
    lacks-append c a (b' ' ∷ (b ++ (b' ' ∷ r))) i (
      lacks-append c (b' ' ∷ []) (b ++ (b' ' ∷ r)) one
        (lacks-append c b (b' ' ∷ r) j (lacks-append c (b' ' ∷ []) r one k)))

module _ {ℓ} {D : Type ℓ} (ds : Durations D) where
  -- What is printed of a duration is one word, and is read back.
  abbrev pub IsPrinted : D → Type ℓ
  IsPrinted x =
      (lacks b' ' (ds.show x) ≡ true)
      × (lacks newline (ds.show x) ≡ true)
      × (ds.parse (ds.show x) ≡ some x)

  parse_fields-keys :
      (u s c : Text)
      → parse_fields ds (some (guest_key ++ u, drift_key ++ s, c))
        ≡ reply_of ds (parse_unix u) (ds.parse s) c
  unfolding parse_fields has_prefix drop_text
  parse_fields-keys u s c = refl

  parse_clock_reply-reply_line :
      (r : ClockReply D)
      → IsTime r.guest
      → IsPrinted r.drift
      → parse_clock_reply ds (reply_line ds r) ≡ some r
  unfolding parse_clock_reply reply_line reply_of
  parse_clock_reply-reply_line r (h, k) (one, lines, back) =
      let printed = fmt_unix r.guest in
      let shown = ds.show r.drift in
      let front : lacks b' ' (guest_key ++ printed) ≡ true =
        lacks-append b' ' guest_key printed key_lacks.0.0
          (fmt_unix-lacks b' ' r.guest refl refl refl) in
      let middle : lacks b' ' (drift_key ++ shown) ≡ true =
        lacks-append b' ' drift_key shown key_lacks.0.1 one in
      ap (parse_fields ds)
        (three_fields-join (guest_key ++ printed) (drift_key ++ shown) r.result front middle)
      ∙ parse_fields-keys printed shown r.result
      ∙ ap (λ x. reply_of ds x (ds.parse shown) r.result) (parse_unix-fmt_unix r.guest h k)
      ∙ ap (λ x. reply_of ds (some r.guest) x r.result) back

  -- The answer of the guest, where its setter answers something.
  abbrev pub answer_of : ClockReply D → ClockReply D
  answer_of r = record r { result = one_line r.result }

  reply_line-trim_space :
      (r : ClockReply D) (e : Text)
      → is_empty (one_line r.result) ≡ false
      → trim_right e ≡ []
      → trim_space (reply_line ds (answer_of r) ++ e) ≡ reply_line ds (answer_of r)
  unfolding trim_space trim_left is_space reply_line
  reply_line-trim_space r e h k =
      trim_right-blank (reply_line ds (answer_of r)) e k
      ∙ trim_right-line (guest_key ++ fmt_unix r.guest) (drift_key ++ ds.show r.drift)
          (one_line r.result) h (one_line-IsLine r.result).1

  reply_line-lacks :
      (r : ClockReply D) → IsPrinted r.drift → lacks newline (reply_line ds (answer_of r)) ≡ true
  unfolding reply_line
  reply_line-lacks r (one, lines, back) =
      lacks-line newline (guest_key ++ fmt_unix r.guest) (drift_key ++ ds.show r.drift)
        (one_line r.result) refl
        (lacks-append newline guest_key (fmt_unix r.guest) key_lacks.1.0
          (fmt_unix-lacks newline r.guest refl refl refl))
        (lacks-append newline drift_key (ds.show r.drift) key_lacks.1.1 lines)
        (one_line-IsLine r.result).0

  received : Text → Option (ClockReply D)
  received s =
      let line = trim_space (read_line (limited max_clock_line s)) in
      if is_empty line then none else parse_clock_reply ds line

  reply_line-full : (r : ClockReply D) → is_empty (reply_line ds r) ≡ false
  unfolding reply_line
  reply_line-full r = refl

  -- The bytes of the answer's line, without its end, are within the host's bound.
  abbrev pub FitsLine : ClockReply D → Type 0
  FitsLine r = byte_length (reply_line ds (answer_of r)) ≤ max_clock_line

  received-reply_line :
      (r : ClockReply D)
      → IsTime r.guest
      → IsPrinted r.drift
      → is_empty (one_line r.result) ≡ false
      → FitsLine r
      → received (header_line (reply_line ds (answer_of r))) ≡ some (answer_of r)
  unfolding received
  received-reply_line r time printed full fits =
      let line = reply_line ds (answer_of r) in
      let (e, blank, read) =
        read_line-limited max_clock_line line (reply_line-lacks r printed) fits in
      rw (read, reply_line-trim_space r e full blank, reply_line-full (answer_of r))
        (parse_clock_reply-reply_line (answer_of r) time printed)

  -- In a clock exchange, the guest's setter is asked with the host's very time, and the host
  -- receives the setter's answer, the spaces of its result made single, so that an error cannot
  -- split the line; the times are in range with nanoseconds below 10^9, the drift is printed as one
  -- word that parses back, the result is not blank, and the line of the answer, without its end, is
  -- of at most 1024 bytes.
  pub sync_clock-guest_clock :
      (zero_drift : D) (clock : Time) (wrong : Text) (h : Time → ClockReply D) (now : Time)
      → IsTime now
      → IsTime (h now).guest
      → IsPrinted (h now).drift
      → is_empty (one_line (h now).result) ≡ false
      → FitsLine (h now)
      → sync_clock ds (guest_clock ds zero_drift clock wrong h) now ≡ some (answer_of (h now))
  unfolding sync_clock guest_clock guest_reply received
  sync_clock-guest_clock zero_drift clock wrong h now (i, j) time printed full fits =
      let heard = ap parse_unix (fmt_unix-trim_space now) ∙ parse_unix-fmt_unix now i j in
      ap
        (λ o.
          received
            (header_line (reply_line ds (answer_of (guest_reply ds zero_drift clock wrong h o)))))
        heard
      ∙ received-reply_line (h now) time printed full fits
