-- ===== src/Reach.antt =====
-- internal/reach/reach.go: the cache of a remote box's state, one small file for each box. A time
-- is its Unix seconds, after 1970, with 0 for Go's zero time. Making the file and replacing it
-- atomically is one step here, and `fails` says whether the operating system refuses it.
pub mod RoundTrip
pub mod Since
use devvm.Prelude.{
  ℕ, Bool, true, false, not, ◌&&◌, ◌||◌, List, [], ◌∷◌, ◌++◌, Option, none, some, ◌==◌,
  if◌then◌else◌, is_empty,
}
use devvm.Text.{Text, codes, eq_text, cut, newline, split_lines, trim_space, one_line}
use devvm.Text.Decimal.{Int64, plus, minus, parse_int, format_nat}

abbrev pub reachable : Text
reachable = codes "reachable"

abbrev pub unreachable : Text
unreachable = codes "unreachable"

abbrev pub unknown : Text
unknown = codes "?"

pub record Entry : Type 0 where
  pub state : Text
  pub verified : ℕ
  pub since : ℕ
  pub how : Text
  pub reason : Text

abbrev pub never_probed : Entry
never_probed = record { state = unknown; verified = 0; since = 0; how = []; reason = [] }

unfoldable pub known_state : Text → Bool
unfolding eq_text
known_state v = eq_text v reachable || eq_text v unreachable || eq_text v unknown

-- `unix`: seconds, or the zero time.
unfoldable pub unix_of : Option Int64 → ℕ
unix_of none = 0
unix_of (some (plus n)) = n
unix_of (some (minus n)) = 0

-- One `key=value` line; another key is passed over.
unfoldable pub set_key : Text → Text → Entry → Entry
unfolding known_state unix_of eq_text
set_key k v e =
    if eq_text k (codes "state")
    then (if known_state v then record e { state = v } else e)
    else if eq_text k (codes "verified")
    then record e { verified = unix_of (parse_int v) }
    else if eq_text k (codes "since")
    then record e { since = unix_of (parse_int v) }
    else if eq_text k (codes "how")
    then record e { how = v }
    else if eq_text k (codes "reason")
    then record e { reason = v }
    else e

unfoldable pub set_pair : Option (Text × Text) → Entry → Entry
unfolding set_key
set_pair none e = e
set_pair (some (k, v)) e = set_key k v e

unfoldable pub parse_entry : List Text → Entry → Entry
unfolding set_pair
parse_entry [] e = e
parse_entry (l ∷ ls) e = parse_entry ls (set_pair (cut b'=' (trim_space l)) e)

-- `parse`.
unfoldable pub parse : Text → Entry
unfolding parse_entry
parse text = parse_entry (split_lines text) never_probed

abbrev pub line : Text → Text → Text
line k v = k ++ b'=' ∷ v ++ newline ∷ []

unfoldable pub time_line : Text → ℕ → Text
time_line k n = if n == 0 then [] else line k (format_nat n)

unfoldable pub word_line : Text → Text → Text
word_line k v = if is_empty v then [] else line k (one_line v)

-- `text`.
unfoldable pub text : Entry → Text
unfolding time_line word_line
text e =
    line (codes "state") e.state
    ++ (time_line (codes "verified") e.verified
        ++ (time_line (codes "since") e.since
            ++ (word_line (codes "how") e.how ++ word_line (codes "reason") e.reason)))

-- `Read`, of the file's text if there is one.
unfoldable pub read : Option Text → Entry
unfolding parse
read none = never_probed
read (some t) = parse t

-- The entry that `Write` writes: the time since when the state holds carries over.
unfoldable pub carried : Option Text → Entry → Entry
unfolding eq_text read
carried file e =
    let prev = read file in
    if not (e.since == 0)
    then e
    else if eq_text prev.state e.state && not (prev.since == 0)
    then record e { since = prev.since }
    else record e { since = e.verified }

-- `Write`: the file after it.
unfoldable pub write : Bool → Entry → Option Text → Option Text
unfolding carried text
write fails e file = if fails then file else some (text (carried file e))

-- `Record`: the box has just answered the command `how`.
unfoldable pub record_reached : Bool → ℕ → Text → Option Text → Option Text
unfolding write
record_reached fails now how file =
    write fails (record { state = reachable; verified = now; since = 0; how = how; reason = [] })
      file

-- `Plain`: the sixth field of a status row.
unfoldable pub plain : Entry → Text
plain e =
    if e.verified == 0
    then codes "verified=-"
    else codes "verified="
      ++ (format_nat e.verified ++ b':' ∷ (if is_empty e.how then codes "?" else e.how))
