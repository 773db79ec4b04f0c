-- ===== src/Config/Ports.antt =====
-- internal/config/ports.go: the text of a saved-forwards file (`parsePorts`, `writePortsFile`).
pub mod RoundTrip
pub mod Lines
use devvm.Prelude.{
  ℕ, Bool, true, false, not, ◌&&◌, ◌||◌, List, [], ◌∷◌, ◌++◌, leb, ◌==◌, if◌then◌else◌, is_empty,
}
use devvm.Text.{
  codes, Text, cut, eq_text, has_prefix, is_space, lacks, newline, prepend, split_lines, trim_left,
  trim_right, trim_space,
}

-- The character #.
abbrev pub hash : ℕ
hash = 35

-- A line that `parsePorts` skips, once trimmed.
abbrev pub skipped : Text → Bool
skipped [] = true
skipped (c ∷ s) = c == hash

unfoldable pub parse_lines : List Text → List Text
unfolding trim_space
parse_lines [] = []
parse_lines (l ∷ ls) =
    let rest = parse_lines ls in if skipped (trim_space l) then rest else trim_space l ∷ rest

-- `parsePorts`.
unfoldable pub parse_ports : Text → List Text
unfolding split_lines parse_lines
parse_ports s = parse_lines (split_lines s)

-- The comment line of a file: a #, and what is around the display name.
abbrev pub before_name : Text
before_name = codes " devvm saved forwards for "

abbrev pub after_name : Text
after_name = codes " on this host: GUEST or HOST:GUEST per line"

unfoldable pub port_lines : List Text → Text
port_lines [] = []
port_lines (p ∷ ps) = p ++ newline ∷ port_lines ps

-- The text that `writePortsFile` writes.
unfoldable pub ports_text : Text → List Text → Text
unfolding port_lines
ports_text display ports =
    hash ∷ (before_name ++ (display ++ after_name)) ++ newline ∷ port_lines ports
