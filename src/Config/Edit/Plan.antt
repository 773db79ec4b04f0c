-- ===== src/Config/Edit/Plan.antt =====
-- `AppendEntry`, `PlanRemoveEntry`, `RemoveEntry` and `Commit` of internal/config/edit.go. What a read
-- of devvm.toml gives, and whether the write fails, are arguments; `parse` is `ParseFile`.
pub mod Safe
pub mod Added
use devvm.Prelude.{
  ℕ, Bool, true, false, not, ◌&&◌, List, [], ◌∷◌, Option, none, some, if◌then◌else◌,
}
use devvm.Text.{Text, eq_text}
use devvm.Config.HubName.{valid_name}
use devvm.Config.Entry.{Entry, remote}
use devvm.Config.Edit.{appended}
use devvm.Config.Edit.Cut.{cut_table}
use devvm.Config.File.{File, FileErr, Parsed, parsed, malformed, invalid, lookup}
use devvm.Config.File.Same.{same_except}

-- What `readForEdit` finds: a link that does not resolve, a file it cannot read, no file, or one.
pub data Read : Type 0 where
  dangling : Read
  unreadable : Read
  missing : Read
  content : Text → Read

pub data PlanErr : Type 0 where
  bad_name : PlanErr
  bad_link : PlanErr
  not_read : PlanErr
  broken_file : PlanErr
  already_there : PlanErr
  not_found : PlanErr
  no_header : PlanErr
  invalid_entry : PlanErr
  changes_others : PlanErr
  not_added : PlanErr
  not_removable : PlanErr
  changed_meanwhile : PlanErr
  not_written : PlanErr

pub data Result {ℓ} (A : Type ℓ) : Type ℓ where
  ok : A → Result A
  failed : PlanErr → Result A

-- `readForEdit`.
unfoldable pub read_for_edit : Read → Result Text
read_for_edit dangling = failed bad_link
read_for_edit unreadable = failed not_read
read_for_edit missing = ok []
read_for_edit (content t) = ok t

abbrev has_entry : Text → File → Bool
has_entry name f = elim (lookup name f.entries) [ none ↦ false | some e ↦ true ]

-- `writeConfigFile`: the file afterwards.
abbrev write_config : Bool → Text → Result Text
write_config fails t = if fails then failed not_written else ok t

-- A remote entry says whether it is managed.
unfoldable pub stated : Entry → Entry
unfolding eq_text
stated e = elim e.managed [
  | some b ↦ e
  | none ↦ if eq_text e.backend remote then record e { managed = some false } else e
]

unfoldable pub check_appended : File → Text → Text → Parsed → Bool → Result Text
unfolding same_except lookup
check_appended before name t (parsed after) fails =
    if not (same_except before after name)
    then failed changes_others
    else if not (has_entry name after)
    then failed not_added
    else write_config fails t
check_appended before name t malformed fails = failed invalid_entry
check_appended before name t (invalid errs) fails = failed invalid_entry

unfoldable pub append_parsed : (Text → Parsed) → Text → Entry → Text → Parsed → Bool → Result Text
unfolding check_appended appended stated lookup
append_parsed parse name e file (parsed before) fails =
    if has_entry name before
    then failed already_there
    else check_appended before name (appended file name (stated e))
        (parse (appended file name (stated e))) fails
append_parsed parse name e file malformed fails = failed broken_file
append_parsed parse name e file (invalid errs) fails = failed broken_file

-- `AppendEntry`.
unfoldable pub append_entry : (Text → Parsed) → Text → Entry → Read → Bool → Result Text
unfolding append_parsed read_for_edit valid_name
append_entry parse name e r fails =
    if not (valid_name name) then failed bad_name else elim (read_for_edit r) [
      | failed w ↦ failed w
      | ok file ↦ append_parsed parse name e file (parse file) fails
    ]

-- `Edit`.
pub record Edit : Type 0 where
  pub from : Text
  pub to : Text

unfoldable pub check_removed : File → Text → Text → Text → Parsed → Result Edit
unfolding same_except lookup
check_removed before name file out (parsed after) =
    if not (same_except before after name)
    then failed changes_others
    else if has_entry name after
    then failed not_removable
    else ok (record { from = file; to = out })
check_removed before name file out malformed = failed changes_others
check_removed before name file out (invalid errs) = failed changes_others

unfoldable pub plan_cut : (Text → Parsed) → File → Text → Text → Option Text → Result Edit
unfolding check_removed
plan_cut parse before name file none = failed no_header
plan_cut parse before name file (some out) = check_removed before name file out (parse out)

unfoldable pub plan_parsed : (Text → Parsed) → Text → Text → Parsed → Result Edit
unfolding plan_cut cut_table lookup
plan_parsed parse name file (parsed before) =
    if not (has_entry name before)
    then failed not_found
    else plan_cut parse before name file (cut_table file name)
plan_parsed parse name file malformed = failed broken_file
plan_parsed parse name file (invalid errs) = failed broken_file

-- `PlanRemoveEntry`.
unfoldable pub plan_remove : (Text → Parsed) → Text → Read → Result Edit
unfolding plan_parsed read_for_edit valid_name
plan_remove parse name r =
    if not (valid_name name) then failed bad_name else elim (read_for_edit r) [
      | failed w ↦ failed w
      | ok file ↦ plan_parsed parse name file (parse file)
    ]

-- `Commit`, on what the file holds by then; it reads the resolved path, so a missing file is empty.
unfoldable pub commit : Edit → Read → Bool → Result Text
unfolding read_for_edit eq_text
commit e cur fails = elim (read_for_edit cur) [
  | failed w ↦ failed w
  | ok t ↦ if not (eq_text t e.from) then failed changed_meanwhile else write_config fails e.to
]

-- `RemoveEntry`, with what the file holds at the second read.
unfoldable pub remove_entry : (Text → Parsed) → Text → Read → Read → Bool → Result Text
unfolding plan_remove commit
remove_entry parse name r cur fails = elim (plan_remove parse name r) [
  | failed w ↦ failed w
  | ok e ↦ commit e cur fails
]
