-- ===== src/Config/Edit/Header.antt =====
-- `tableHeader`, `closingBracket` and `splitKey` of internal/config/edit.go: the key of a header
-- line [a.b] or [[a.b]].
use devvm.Prelude.{
  ℕ, zero, suc, Bool, false, not, ◌&&◌, ◌||◌, List, [], ◌∷◌, Option, none, some, ◌==◌,
  if◌then◌else◌, is_empty, length,
}
use devvm.Text.{Text, cut, trim_space}
use devvm.Text.Quoted.{unquote}
use devvm.Config.Edit.{is_bare_key}

abbrev pub push : ℕ → Option (Text × Text) → Option (Text × Text)
push c none = none
push c (some (a, b)) = some (c ∷ a, b)

-- Where the search of the closing bracket stands: in no quotes, in some, or behind a backslash in
-- double ones, where the next character counts for nothing.
pub data Scan : Type 0 where
  outside : Scan
  quoted : ℕ → Scan
  escaped : Scan

unfoldable pub scan_next : Scan → ℕ → Scan
scan_next outside c = if c == b'"' || c == b'\'' then quoted c else outside
scan_next (quoted q) c =
    if c == b'\\' && q == b'"' then escaped else if c == q then outside else quoted q
scan_next escaped c = quoted b'"'

unfoldable pub closes : Scan → ℕ → Bool
closes outside c = c == b']'
closes (quoted q) c = false
closes escaped c = false

-- `closingBracket`, from behind the opening one: what is before the bracket, and after it.
unfoldable pub closing_bracket : Scan → Text → Option (Text × Text)
unfolding scan_next closes
closing_bracket st [] = none
closing_bracket st (c ∷ s) =
    let rest = closing_bracket (scan_next st c) s in
    if closes st c then some ([], s) else push c rest

-- `strings.Index(t, "]]")`, from behind the opening brackets.
unfoldable pub closing_pair : Text → Option (Text × Text)
closing_pair [] = none
closing_pair (c ∷ []) = none
closing_pair (c ∷ d ∷ s) =
    let rest = closing_pair (d ∷ s) in if c == b']' && d == b']' then some ([], s) else push c rest

-- The end of a key in double quotes: what is between them, and after. The flag says that the
-- character is behind a backslash.
unfoldable pub basic_end : Bool → Text → Option (Text × Text)
basic_end skip [] = none
basic_end skip (c ∷ s) =
    let rest = basic_end (not skip && c == b'\\') s in
    if not skip && c == b'"' then some ([], s) else push c rest

unfoldable pub unquoted : Option (Text × Text) → Option (Text × Text)
unfolding unquote
unquoted none = none
unquoted (some (a, s)) = elim (unquote a) [ none ↦ none | some u ↦ some (u, s) ]

-- The segment up to the dot, with the dot left in front of what is after it.
unfoldable pub up_to_dot : Text → Text × Text
unfolding cut
up_to_dot s = elim (cut b'.' s) [ none ↦ (s, []) | some (a, b) ↦ (a, b'.' ∷ b) ]

unfoldable pub bare_segment : Text × Text → Option (Text × Text)
unfolding is_bare_key trim_space
bare_segment (a, s) = if is_bare_key (trim_space a) then some (trim_space a, s) else none

-- One round of `splitKey`: the first segment of a trimmed key, and what is after it.
unfoldable pub segment : Text → Option (Text × Text)
unfolding basic_end unquoted up_to_dot bare_segment
segment [] = none
segment (c ∷ s) =
    if c == b'"'
    then unquoted (basic_end false s)
    else if c == b'\''
    then cut b'\'' s
    else bare_segment (up_to_dot (c ∷ s))

-- What the loop of `splitKey` comes to: its segments, or that the key is refused; `unfinished` where
-- the rounds ran out, which the source's loop cannot.
pub data Split : Type 0 where
  segments : List Text → Split
  rejected : Split
  unfinished : Split

unfoldable pub led_by : Text → Split → Split
led_by seg (segments segs) = segments (seg ∷ segs)
led_by seg rejected = rejected
led_by seg unfinished = unfinished

-- What follows a segment: the key's end, or a dot and more segments.
unfoldable pub after_segment : Text → Text → (Text → Split) → Split
unfolding led_by
after_segment seg [] more = segments (seg ∷ [])
after_segment seg (c ∷ s) more = if c == b'.' then led_by seg (more s) else rejected

-- `splitKey`, in as many rounds as the fuel says.
unfoldable pub split_rounds : ℕ → Text → Split
unfolding segment after_segment trim_space
split_rounds zero s = unfinished
split_rounds (suc fuel) s = elim (segment (trim_space s)) [
  | none ↦ rejected
  | some (seg, r) ↦ after_segment seg (trim_space r) (split_rounds fuel)
]

unfoldable pub key_of : Split → Option (List Text)
key_of (segments segs) = some segs
key_of rejected = none
key_of unfinished = none

-- `splitKey`: each round takes a character at least.
unfoldable pub split_key : Text → Option (List Text)
unfolding split_rounds key_of
split_key s = key_of (split_rounds (suc (length s)) s)

-- Behind the brackets stands nothing, or a comment.
abbrev pub starts_with : ℕ → Text → Bool
starts_with c [] = false
starts_with c (x ∷ s) = x == c

unfoldable pub header_key : Option (Text × Text) → Option (List Text)
unfolding split_key trim_space
header_key none = none
header_key (some (inner, rest)) =
    if is_empty (trim_space rest) || starts_with b'#' (trim_space rest)
    then split_key inner
    else none

unfoldable pub bracketed : Text → Option (List Text)
unfolding header_key closing_pair closing_bracket
bracketed [] = none
bracketed (d ∷ s) =
    header_key (if d == b'[' then closing_pair s else closing_bracket outside (d ∷ s))

unfoldable pub trimmed_header : Text → Option (List Text)
unfolding bracketed
trimmed_header [] = none
trimmed_header (c ∷ s) = if c == b'[' then bracketed s else none

-- `tableHeader`.
unfoldable pub table_header : Text → Option (List Text)
unfolding trimmed_header trim_space
table_header line = trimmed_header (trim_space line)
