-- ===== src/Config/Edit/Plan/Added.antt =====
-- `AppendEntry` of internal/config/edit.go, whole: what is written differs in the entry that is added.
use devvm.Prelude.{Bool, true, false, ◌≡◌, ◌⊎◌, [], ◌∷◌, ◌++◌, none, some}
use devvm.Text.{Text, codes, newline, eq_text}
use devvm.Config.Entry.{Entry}
use devvm.Config.Edit
use devvm.Config.Edit.{ends_line, with_ends, machine_table, key_lines}
use devvm.Config.Edit.Plan.{Read, ok, read_for_edit, has_entry}
use devvm.Config.Edit.Plan.Safe.{DiffersIn}
use devvm.Config.File.{File, Parsed}

-- One line end, of either kind.
abbrev pub IsLineEnd : Text → Type 0
IsLineEnd nl = (nl ≡ newline ∷ []) ⊎ (nl ≡ 13 ∷ newline ∷ [])

-- The entry that is written: a remote one that does not say whether it is managed says that it is
-- not; any other is as it was given.
abbrev pub IsStated : Entry → Entry → Type 0
IsStated e e' =
    (e' ≡ e)
    ⊎ ((e.managed ≡ none)
        × (eq_text e.backend (codes "remote") ≡ true)
        × (e' ≡ record e { managed = some false }))

-- A text is another, ended and followed by a blank line unless it is empty, and then the lines of
-- the entry's table, each with the same line end.
pub record Extended (file out name : Text) (e : Entry) : Type 0 where
  pub nl : Text
  pub line_end : IsLineEnd nl
  pub gap : Text
  pub blank_line :
      ((file ≡ []) × (gap ≡ []))
      ⊎ ((ends_line file ≡ true) × (gap ≡ nl))
      ⊎ ((ends_line file ≡ false) × (gap ≡ nl ++ nl))
  pub entry : Entry
  pub is_stated : IsStated e entry
  pub lines : out ≡ file ++ gap ++ with_ends nl (machine_table name ∷ key_lines entry)

pub record Added (parse : Text → Parsed) (name : Text) (e : Entry) (r : Read) (out : Text)
    : Type 0 where
  pub file : Text
  pub was_read : read_for_edit r ≡ ok file
  pub is_extended : Extended file out name e
  pub before : File
  pub after : File
  pub diff : DiffersIn parse name file out before after
  pub was_absent : has_entry name before ≡ false
  pub is_there : has_entry name after ≡ true

module _ (parse : Text → Parsed) (name : Text) (e : Entry) (r : Read) (fails : Bool) where
  abbrev IsDone : Text → Type 0
  IsDone = Added parse name e r
