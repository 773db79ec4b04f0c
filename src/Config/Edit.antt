-- ===== src/Config/Edit.antt =====
-- internal/config/edit.go: the two writes of devvm.toml. Here, the text that `config add` appends:
-- the table of an entry, its keys in a fixed order, its strings escaped.
pub mod Header
pub mod Cut
pub mod Quotable
pub mod Named
pub mod Safe
pub mod Lines
pub mod Rounds
pub mod Keys
pub mod Undone
pub mod Plan
use devvm.Prelude.{
  ℕ, suc, ◌+◌, ◌-◌, ◌/◌, ◌%◌, Bool, true, false, not, ◌&&◌, ◌||◌, List, [], ◌∷◌, ◌++◌, Option, none,
  some, ltb, ◌==◌, if◌then◌else◌, is_empty,
}
use devvm.Text.{Text, codes, newline}
use devvm.Text.Decimal.{format_nat}
use devvm.Config.Entry.{Entry}
use devvm.Config.HubName.{is_alnum}
use devvm.Config.Templates.{ℤ, pos, negsuc}

-- `bareKeyRe`: [A-Za-z0-9_-]+.
unfoldable pub is_bare_char : ℕ → Bool
unfolding is_alnum
is_bare_char c = is_alnum c || c == b'_' || c == b'-'

unfoldable pub all_bare : Text → Bool
unfolding is_bare_char
all_bare [] = true
all_bare (c ∷ s) = is_bare_char c && all_bare s

unfoldable pub is_bare_key : Text → Bool
unfolding all_bare
is_bare_key s = not (is_empty s) && all_bare s

-- `%04X`, of a code below 65536.
unfoldable pub hex_digit : ℕ → ℕ
hex_digit n = if ltb n 10 then 48 + n else 55 + n

unfoldable pub hex4 : ℕ → Text
unfolding hex_digit
hex4 r =
    hex_digit (r / 4096 % 16)
    ∷ hex_digit (r / 256 % 16)
    ∷ hex_digit (r / 16 % 16)
    ∷ hex_digit (r % 16)
    ∷ []

-- The characters that are written as \u: controls, and `utf8.RuneError`.
unfoldable pub is_hexed : ℕ → Bool
is_hexed r = ltb r 32 || r == 127 || r == 65533

unfoldable pub escape_char : ℕ → Text
unfolding hex4 is_hexed
escape_char r =
    if r == b'"'
    then b'\\' ∷ b'"' ∷ []
    else if r == b'\\'
    then b'\\' ∷ b'\\' ∷ []
    else if r == newline
    then b'\\' ∷ b'n' ∷ []
    else if r == 9
    then b'\\' ∷ b't' ∷ []
    else if is_hexed r
    then b'\\' ∷ b'u' ∷ hex4 r
    else r ∷ []

unfoldable pub escape_text : Text → Text
unfolding escape_char
escape_text [] = []
escape_text (r ∷ s) = escape_char r ++ escape_text s

-- `tomlString`.
unfoldable pub toml_string : Text → Text
unfolding escape_text
toml_string s = b'"' ∷ (escape_text s ++ b'"' ∷ [])

-- `tomlKey`.
unfoldable pub toml_key : Text → Text
unfolding is_bare_key toml_string
toml_key k = if is_bare_key k then k else toml_string k

-- `MachineTable`.
abbrev pub machines : Text
machines = codes "machines"

unfoldable pub machine_table : Text → Text
unfolding toml_key
machine_table name = b'[' ∷ (machines ++ b'.' ∷ (toml_key name ++ b']' ∷ []))

-- `%d`.
unfoldable pub format_signed : ℤ → Text
unfolding format_nat
format_signed (pos n) = format_nat n
format_signed (negsuc n) = b'-' ∷ format_nat (suc n)

-- `renderEntry`, as its lines without their ends.
abbrev pub key_line : Text → Text → Text
key_line k v = k ++ codes " = " ++ v

unfoldable pub managed_line : Option Bool → List Text
managed_line none = []
managed_line (some true) = key_line (codes "managed") (codes "true") ∷ []
managed_line (some false) = key_line (codes "managed") (codes "false") ∷ []

unfoldable pub set_line : Text → Text → List Text
unfolding toml_string
set_line k v = if is_empty v then [] else key_line k (toml_string v) ∷ []

unfoldable pub is_zero : ℤ → Bool
is_zero (pos n) = n == 0
is_zero (negsuc n) = false

unfoldable pub timeout_line : ℤ → List Text
unfolding format_signed is_zero
timeout_line t = if is_zero t then [] else key_line (codes "connect_timeout") (format_signed t) ∷ []

unfoldable pub key_lines : Entry → List Text
unfolding toml_string managed_line set_line timeout_line
key_lines e =
    key_line (codes "backend") (toml_string e.backend)
    ∷ (managed_line e.managed
        ++ key_line (codes "host") (toml_string e.host)
          ∷ (set_line (codes "user") e.user
              ++ set_line (codes "transport") e.transport
              ++ set_line (codes "mosh_server") e.mosh_server
              ++ set_line (codes "identity") e.identity
              ++ timeout_line e.connect_timeout))

-- Lines, each behind it the line end `nl`: what `ReplaceAll` makes of the table's line ends.
unfoldable pub with_ends : Text → List Text → Text
with_ends nl [] = []
with_ends nl (l ∷ ls) = l ++ nl ++ with_ends nl ls

unfoldable pub render_entry : Text → Text → Entry → Text
unfolding with_ends machine_table key_lines
render_entry nl name e = with_ends nl (machine_table name ∷ key_lines e)

-- The line end of a file: that of Windows where it stands anywhere in it.
unfoldable pub has_crlf : Text → Bool
has_crlf [] = false
has_crlf (c ∷ []) = false
has_crlf (c ∷ d ∷ s) = c == 13 && d == newline || has_crlf (d ∷ s)

unfoldable pub line_end : Text → Text
unfolding has_crlf
line_end file = if has_crlf file then 13 ∷ newline ∷ [] else newline ∷ []

-- Whether the last character is a line end.
unfoldable pub ends_line : Text → Bool
ends_line [] = false
ends_line (c ∷ []) = c == newline
ends_line (c ∷ d ∷ s) = ends_line (d ∷ s)

-- The file with its last line ended.
unfoldable pub ended : Text → Text
unfolding line_end ends_line
ended file = if is_empty file || ends_line file then file else file ++ line_end file

unfoldable pub gap : Text → Text
unfolding line_end
gap file = if is_empty file then [] else line_end file

-- What `AppendEntry` writes.
unfoldable pub appended : Text → Text → Entry → Text
unfolding ended gap line_end render_entry
appended file name e = ended file ++ gap file ++ render_entry (line_end file) name e
