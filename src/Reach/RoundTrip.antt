-- ===== src/Reach/RoundTrip.antt =====
-- An entry that is written is read back.
use devvm.Prelude.{
  ℕ, ◌+◌, ◌^◌, ◌<◌, true, ◌≡◌, inl, inr, refl, sym, ◌∙◌, ap, [], ◌∷◌, ◌++◌, arith, ◌==◌, Bool-cases,
}
use mathlib.Core.List.{append_assoc, append-nil}
use devvm.Text.{
  Text, codes, eq_text, cut, newline, split_lines, is_space, trim_left, trim_right, trim_space,
  one_line, lacks, fields, fields_from, end_word, join_words,
}
use devvm.Text.Laws.{
  lacks-append, cut-append, split_lines-append, eq_text_eq, trim_right-between, trim_right-last,
}
use devvm.Text.Words.{IsLine, one_line-IsLine}
use devvm.Text.Decimal.{format_nat}
use devvm.Text.Decimal.RoundTrip.{parse_int-format_nat, format_nat-lacks, format_nat-last}
use devvm.Reach.{
  Entry, reachable, unreachable, unknown, never_probed, known_state, unix_of, set_key, set_pair,
  parse_entry, parse, line, time_line, word_line, text,
}

-- A key of the file.
abbrev IsKey : Text → Type 0
IsKey k =
    (lacks newline k ≡ true) × (lacks b'=' k ≡ true) × ((x : Text) → trim_left (k ++ x) ≡ k ++ x)

trim_right-pair : (k v : Text) → trim_right v ≡ v → trim_right (k ++ b'=' ∷ v) ≡ k ++ b'=' ∷ v
unfolding is_space
trim_right-pair k [] t = trim_right-last k b'=' refl
trim_right-pair k (c ∷ v) t = trim_right-between k b'=' (c ∷ v) refl t

parse_entry-split_lines :
    (s rest : Text) (e : Entry)
    → lacks newline s ≡ true
    → parse_entry (split_lines (s ++ newline ∷ rest)) e
      ≡ parse_entry (split_lines rest) (set_pair (cut b'=' (trim_space s)) e)
unfolding parse_entry
parse_entry-split_lines s rest e h = rw (split_lines-append s rest h) refl

-- Reading a line sets its key to its value.
parse_entry-line :
    (k v rest : Text) (e : Entry)
    → IsKey k
    → IsLine v
    → parse_entry (split_lines (line k v ++ rest)) e
      ≡ parse_entry (split_lines rest) (set_key k v e)
unfolding set_pair trim_space lacks
parse_entry-line k v rest e (kn, ke, kt) (vn, vt) =
    let pair : Text = k ++ b'=' ∷ v in
    let trimmed : trim_space pair ≡ pair = ap trim_right (kt (b'=' ∷ v)) ∙ trim_right-pair k v vt in
    let stands : line k v ++ rest ≡ pair ++ newline ∷ rest = simp (append_assoc) in
    ap (λ t. parse_entry (split_lines t) e) stands
    ∙ parse_entry-split_lines pair rest e (lacks-append newline k (b'=' ∷ v) kn vn)
    ∙ ap (λ x. parse_entry (split_lines rest) (set_pair x e))
        (ap (cut b'=') trimmed ∙ cut-append b'=' k v ke)

format_nat-IsLine : (n : ℕ) → IsLine (format_nat n)
unfolding is_space
format_nat-IsLine n =
    let (s, d, e, small) = format_nat-last n in
    (format_nat-lacks newline n refl, rw e (trim_right-last s (48 + d) (ground arith)))

-- A time's line sets its key, or the key's time is 0 already.
parse_entry-time_line :
    (k rest : Text) (n : ℕ) (e : Entry) (put : ℕ → Entry)
    → IsKey k
    → e ≡ put 0
    → set_key k (format_nat n) e ≡ put n
    → parse_entry (split_lines (time_line k n ++ rest)) e ≡ parse_entry (split_lines rest) (put n)
unfolding time_line
parse_entry-time_line k rest n e put key zero sets = elim (Bool-cases (n == 0)) [
  | inl h ↦
      let is_zero : n ≡ 0 = ground arith in
      rw h (ap (parse_entry (split_lines rest)) (zero ∙ ap put (sym is_zero)))
  | inr h ↦ rw h (
      parse_entry-line k (format_nat n) rest e key (format_nat-IsLine n)
      ∙ ap (parse_entry (split_lines rest)) sets)
]

-- A word line sets its key, or the key is empty already.
parse_entry-word_line :
    (k v rest : Text) (e : Entry) (put : Text → Entry)
    → IsKey k
    → e ≡ put []
    → set_key k (one_line v) e ≡ put (one_line v)
    → parse_entry (split_lines (word_line k v ++ rest)) e
      ≡ parse_entry (split_lines rest) (put (one_line v))
unfolding word_line one_line fields fields_from end_word join_words
parse_entry-word_line k [] rest e put key unset sets = ap (parse_entry (split_lines rest)) unset
parse_entry-word_line k (c ∷ v) rest e put key unset sets =
    parse_entry-line k (one_line (c ∷ v)) rest e key (one_line-IsLine (c ∷ v))
    ∙ ap (parse_entry (split_lines rest)) sets

known_state-IsLine : (v : Text) → known_state v ≡ true → IsLine v
unfolding known_state lacks is_space trim_right
known_state-IsLine v h = elim (Bool-cases (eq_text v reachable)) [
  | inl r ↦ rw (eq_text_eq v reachable r) (refl, refl)
  | inr r ↦ elim (Bool-cases (eq_text v unreachable)) [
    | inl u ↦ rw (eq_text_eq v unreachable u) (refl, refl)
    | inr u ↦ rw (eq_text_eq v unknown (ground arith)) (refl, refl)
  ]
]

set_key-state :
    (v : Text)
    → known_state v ≡ true
    → set_key (codes "state") v never_probed ≡ record never_probed { state = v }
unfolding set_key eq_text
set_key-state v h = rw h refl

-- The line of one key, read where the key is still unset.
verified_read :
    (e : Entry) (n : ℕ) (rest : Text)
    → e.verified ≡ 0
    → n < 2 ^ 63
    → parse_entry (split_lines (time_line (codes "verified") n ++ rest)) e
      ≡ parse_entry (split_lines rest) (record e { verified = n })
unfolding set_key eq_text lacks trim_left is_space unix_of
verified_read e n rest h small =
    parse_entry-time_line (codes "verified") rest n e (λ m. record e { verified = m })
      (refl, refl, λ x. refl) (ap (λ m. record e { verified = m }) h)
      (ap (λ x. record e { verified = unix_of x }) (parse_int-format_nat n small))

since_read :
    (e : Entry) (n : ℕ) (rest : Text)
    → e.since ≡ 0
    → n < 2 ^ 63
    → parse_entry (split_lines (time_line (codes "since") n ++ rest)) e
      ≡ parse_entry (split_lines rest) (record e { since = n })
unfolding set_key eq_text lacks trim_left is_space unix_of
since_read e n rest h small =
    parse_entry-time_line (codes "since") rest n e (λ m. record e { since = m })
      (refl, refl, λ x. refl) (ap (λ m. record e { since = m }) h)
      (ap (λ x. record e { since = unix_of x }) (parse_int-format_nat n small))

how_read :
    (e : Entry) (v rest : Text)
    → e.how ≡ []
    → parse_entry (split_lines (word_line (codes "how") v ++ rest)) e
      ≡ parse_entry (split_lines rest) (record e { how = one_line v })
unfolding set_key eq_text lacks trim_left is_space
how_read e v rest h =
    parse_entry-word_line (codes "how") v rest e (λ w. record e { how = w }) (refl, refl, λ x. refl)
      (ap (λ w. record e { how = w }) h) refl

reason_read :
    (e : Entry) (v rest : Text)
    → e.reason ≡ []
    → parse_entry (split_lines (word_line (codes "reason") v ++ rest)) e
      ≡ parse_entry (split_lines rest) (record e { reason = one_line v })
unfolding set_key eq_text lacks trim_left is_space
reason_read e v rest h =
    parse_entry-word_line (codes "reason") v rest e (λ w. record e { reason = w })
      (refl, refl, λ x. refl) (ap (λ w. record e { reason = w }) h) refl

-- The text of a reach entry with a known state and times below 2^63 parses to the entry, with the
-- spaces of its `how` and `reason` made single: no value can end its line or start another key, and
-- a zero time and an empty word come back as such.
pub parse-text :
    (e : Entry)
    → known_state e.state ≡ true
    → e.verified < 2 ^ 63
    → e.since < 2 ^ 63
    → parse (text e) ≡ record e { how = one_line e.how; reason = one_line e.reason }
unfolding parse text lacks trim_left is_space cut split_lines trim_space trim_right
parse-text e known small small' =
    let e0 = record never_probed { state = e.state } in
    let e1 = record e0 { verified = e.verified } in
    let e2 = record e1 { since = e.since } in
    let e3 = record e2 { how = one_line e.how } in
    let last = word_line (codes "reason") e.reason in
    let how_on = word_line (codes "how") e.how ++ last in
    let since_on = time_line (codes "since") e.since ++ how_on in
    let verified_on = time_line (codes "verified") e.verified ++ since_on in
    parse_entry-line (codes "state") e.state verified_on never_probed (refl, refl, λ x. refl)
      (known_state-IsLine e.state known)
    ∙ ap (parse_entry (split_lines verified_on)) (set_key-state e.state known)
    ∙ verified_read e0 e.verified since_on refl small
    ∙ since_read e1 e.since how_on refl small'
    ∙ how_read e2 e.how last refl
    ∙ ap (λ t. parse_entry (split_lines t) e3) (sym (append-nil last))
    ∙ reason_read e3 e.reason [] refl
