-- ===== src/Cli/Mapping.antt =====
-- internal/cli/forwards.go: HOST:GUEST mappings, and the edits of a machine's saved list by
-- `ports add` and `ports rm`; `SplitPort` of internal/config/config.go.
pub mod Edits
pub mod Lines
pub mod RoundTrip
use devvm.Prelude.{
  ℕ, Bool, true, false, not, ◌&&◌, ◌||◌, List, [], ◌∷◌, ◌++◌, Option, none, some, leb, ◌==◌,
  if◌then◌else◌, keep,
}
use devvm.Text.{Text, eq_text, cut}
use devvm.Text.Decimal.{Int64, plus, minus, parse_int}

pub data Mapping : Type 0 where
  mapping : ℕ → ℕ → Mapping
  not_numeric : Mapping
  out_of_range : Mapping

-- `SplitPort`.
abbrev pair_or : Text → Option (Text × Text) → Text × Text
pair_or m none = (m, m)
pair_or m (some p) = p

unfoldable pub split_port : Text → Text × Text
unfolding cut
split_port m = pair_or m (cut b':' m)

abbrev pub is_port : Int64 → Bool
is_port (plus n) = leb 1 n && leb n 65535
is_port (minus n) = false

abbrev magnitude : Int64 → ℕ
magnitude (plus n) = n
magnitude (minus n) = n

-- `parseMapping`, of the two numbers.
unfoldable pub mapping_of : Option Int64 → Option Int64 → Mapping
mapping_of none g = not_numeric
mapping_of (some h) none = not_numeric
mapping_of (some h) (some g) =
    if is_port h && is_port g then mapping (magnitude h) (magnitude g) else out_of_range

-- `parseMapping`.
unfoldable pub parse_mapping : Text → Mapping
unfolding split_port mapping_of
parse_mapping m = let p = split_port m in mapping_of (parse_int p.0) (parse_int p.1)

abbrev pub is_mapping : ℕ → ℕ → Mapping → Bool
is_mapping pref guest (mapping h g) = (h == pref) && (g == guest)
is_mapping pref guest not_numeric = false
is_mapping pref guest out_of_range = false

-- `findMappingIn`.
unfoldable pub find_mapping_in : List Text → ℕ → ℕ → Option Text
unfolding parse_mapping
find_mapping_in [] pref guest = none
find_mapping_in (p ∷ ps) pref guest =
    if is_mapping pref guest (parse_mapping p) then some p else find_mapping_in ps pref guest

-- The edit of `addPort`: a mapping that is saved already, in any spelling, is not added.
unfoldable pub add_edit : Text → ℕ → ℕ → List Text → List Text
unfolding find_mapping_in
add_edit m pref guest ports = elim (find_mapping_in ports pref guest) [
  | none ↦ ports ++ m ∷ []
  | some p ↦ ports
]

-- The edit of `runUnport`: every line that is spelled like it goes.
unfoldable pub unport_edit : Text → List Text → List Text
unfolding eq_text
unport_edit configured ports = keep (λ p. not (eq_text p configured)) ports

-- `slices.Contains`.
unfoldable pub contains : List Text → Text → Bool
unfolding eq_text
contains [] m = false
contains (p ∷ ps) m = eq_text p m || contains ps m

-- What `runUnport` takes off the saved list: a line of it, with the guest port if the argument names
-- one; or a guest port that is not saved, for `unportUnconfigured`; or nothing.
pub data Unport : Type 0 where
  saved_line : Text → ℕ → Unport
  unsaved_guest : ℕ → Unport
  not_configured : Unport

unfoldable pub unport_parsed : List Text → Text → Mapping → Unport
unfolding contains find_mapping_in
unport_parsed saved m (mapping pref g) = elim (find_mapping_in saved pref g) [
  | none ↦ unsaved_guest g
  | some found ↦ saved_line found g
]
unport_parsed saved m not_numeric = if contains saved m then saved_line m 0 else not_configured
unport_parsed saved m out_of_range = if contains saved m then saved_line m 0 else not_configured

unfoldable pub unport : List Text → Text → Unport
unfolding unport_parsed parse_mapping
unport saved m = unport_parsed saved m (parse_mapping m)
