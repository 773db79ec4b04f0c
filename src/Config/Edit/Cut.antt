-- ===== src/Config/Edit/Cut.antt =====
-- `cutTable` of internal/config/edit.go: a file without the lines of one table.
use devvm.Prelude.{
  Bool, true, false, ◌&&◌, ◌||◌, List, [], ◌∷◌, ◌++◌, Option, none, some, ◌==◌, if◌then◌else◌,
  is_empty,
}
use devvm.Text.{Text, eq_text, newline, prepend, trim_space}
use devvm.Config.Edit.{machines}
use devvm.Config.Edit.Header.{starts_with, table_header}

-- `strings.SplitAfter(s, "\n")`, without the empty piece at the end.
unfoldable pub split_after : Text → List Text
split_after [] = []
split_after (c ∷ s) =
    let rest = split_after s in if c == newline then (c ∷ []) ∷ rest else prepend c rest

-- `strings.Join(lines, "")`.
unfoldable pub join_lines : List Text → Text
join_lines [] = []
join_lines (l ∷ ls) = l ++ join_lines ls

unfoldable pub is_blank : Text → Bool
unfolding trim_space
is_blank line = is_empty (trim_space line)

unfoldable pub is_comment : Text → Bool
unfolding trim_space
is_comment line = starts_with b'#' (trim_space line)

unfoldable pub is_loose : Text → Bool
unfolding is_blank is_comment
is_loose line = is_blank line || is_comment line

-- Whether a header's key is `machines` and the name.
unfoldable pub names_machine : Text → Option (List Text) → Bool
unfolding eq_text
names_machine name (some (a ∷ b ∷ [])) = eq_text a machines && eq_text b name
names_machine name other = false

unfoldable pub is_header : Option (List Text) → Bool
is_header none = false
is_header (some key) = true

-- The lines before the table's header, the header, and the lines after it.
pub record Found : Type 0 where
  pub before : List Text
  pub header : Text
  pub after : List Text

unfoldable pub found_later : Text → Option Found → Option Found
found_later l none = none
found_later l (some f) = some (record f { before = l ∷ f.before })

unfoldable pub find_table : Text → List Text → Option Found
unfolding names_machine table_header found_later
find_table name [] = none
find_table name (l ∷ ls) =
    let later = find_table name ls in
    if names_machine name (table_header l)
    then some (record { before = []; header = l; after = ls })
    else found_later l later

-- The lines up to the next header, and those from it on.
unfoldable pub until_header : List Text → List Text × List Text
unfolding table_header is_header
until_header [] = ([], [])
until_header (l ∷ ls) =
    let (a, b) = until_header ls in if is_header (table_header l) then ([], l ∷ ls) else (l ∷ a, b)

-- A list without its last elements that pass the test, and these.
unfoldable pub split_tail : (Text → Bool) → List Text → List Text × List Text
split_tail p [] = ([], [])
split_tail p (x ∷ xs) =
    let (a, b) = split_tail p xs in if is_empty a && p x then ([], x ∷ b) else (x ∷ a, b)

-- The first elements that pass the test, and the rest.
unfoldable pub split_head : (Text → Bool) → List Text → List Text × List Text
split_head p [] = ([], [])
split_head p (x ∷ xs) = let (a, b) = split_head p xs in if p x then (x ∷ a, b) else ([], x ∷ xs)

-- What is behind the table's last key: the lines to cut, and those kept. Comments right above the
-- next header are kept; of the others those glued to the table go, and the blank gap behind them.
unfoldable pub cut_gap : List Text → List Text → List Text × List Text
unfolding split_tail split_head is_blank is_comment
cut_gap loose next =
    let (mid, above) = if is_empty next then (loose, []) else split_tail is_comment loose in
    let (glued, r) = split_head is_comment mid in
    let (blanks, left) = split_head is_blank r in (glued ++ blanks, left ++ above ++ next)

-- Where nothing is kept behind the table, the blank lines above it go too.
unfoldable pub kept_before : List Text → List Text → List Text
unfolding split_tail is_blank
kept_before before rest = if is_empty rest then (split_tail is_blank before).0 else before

unfoldable pub cut_found : Found → Text
unfolding until_header split_tail is_loose cut_gap kept_before join_lines
cut_found f =
    let (body, next) = until_header f.after in
    let (content, loose) = split_tail is_loose body in
    let (gone, rest) = cut_gap loose next in
    join_lines (kept_before f.before rest) ++ join_lines rest

-- `cutTable`; none where no line is the table's header.
unfoldable pub cut_table : Text → Text → Option Text
unfolding find_table split_after cut_found
cut_table file name = elim (find_table name (split_after file)) [
  | none ↦ none
  | some f ↦ some (cut_found f)
]
