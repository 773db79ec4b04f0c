-- ===== src/Config/HubName.antt =====
-- internal/config/hubname.go: HUB/NAME and its runtime form HUB@NAME; internal/config/config.go:
-- `ValidName`. A text is the list of its code points.
pub mod RoundTrip
use devvm.Prelude.{
  ℕ, Bool, true, false, not, ◌&&◌, ◌||◌, List, [], ◌∷◌, ◌++◌, Option, none, some, leb, ◌==◌,
  if◌then◌else◌, is_empty,
}
use devvm.Text.{
  Text, cut, eq_text, has_prefix, is_space, lacks, newline, prepend, split_lines, trim_left,
  trim_right, trim_space,
}

-- The characters / and @.
abbrev pub hub_sep : ℕ
hub_sep = 47

abbrev pub runtime_sep : ℕ
runtime_sep = 64

-- The classes of `nameRe`: [A-Za-z0-9], and with it the characters . _ and -.
unfoldable pub is_alnum : ℕ → Bool
is_alnum c = leb 65 c && leb c 90 || leb 97 c && leb c 122 || leb 48 c && leb c 57

unfoldable pub is_name_char : ℕ → Bool
unfolding is_alnum
is_name_char c = is_alnum c || c == 46 || c == 95 || c == 45

unfoldable pub all_name_chars : Text → Bool
unfolding is_name_char
all_name_chars [] = true
all_name_chars (c ∷ s) = is_name_char c && all_name_chars s

-- `ValidName`.
unfoldable pub valid_name : Text → Bool
unfolding is_alnum all_name_chars
valid_name [] = false
valid_name (c ∷ s) = is_alnum c && all_name_chars s

-- `SplitHubName`: no HUB/NAME, or a malformed one, or its parts.
pub data Split : Type 0 where
  bare : Split
  bad_hub : Split
  bad_machine : Split
  parts : Text → Text → Split

unfoldable pub check_parts : Option (Text × Text) → Split
unfolding valid_name
check_parts none = bare
check_parts (some (hub, machine)) =
    if not (valid_name hub)
    then bad_hub
    else if not (valid_name machine)
    then bad_machine
    else parts hub machine

unfoldable pub split_hub_name : Text → Split
unfolding cut check_parts
split_hub_name name = check_parts (cut hub_sep name)

-- `JoinHubName`.
unfoldable pub join_hub_name : Text → Text → Text
join_hub_name hub machine = hub ++ hub_sep ∷ machine

-- `strings.Replace` of one character's first occurrence.
unfoldable pub replace_first : ℕ → ℕ → Text → Text
replace_first old new [] = []
replace_first old new (c ∷ s) = if c == old then new ∷ s else c ∷ replace_first old new s

unfoldable pub runtime_name : Text → Text
unfolding replace_first
runtime_name display = replace_first hub_sep runtime_sep display

unfoldable pub display_name : Text → Text
unfolding replace_first
display_name runtime = replace_first runtime_sep hub_sep runtime

-- `validPortsName` of internal/config/ports.go: a bare name, or HUB/NAME.
unfoldable pub valid_split : Text → Split → Bool
unfolding valid_name
valid_split name bare = valid_name name
valid_split name bad_hub = false
valid_split name bad_machine = false
valid_split name (parts hub machine) = true

unfoldable pub valid_ports_name : Text → Bool
unfolding split_hub_name valid_split
valid_ports_name name = valid_split name (split_hub_name name)
