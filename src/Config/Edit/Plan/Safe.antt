-- ===== src/Config/Edit/Plan/Safe.antt =====
-- The edits of devvm.toml, whole: what is written differs from what was read in one entry.
use devvm.Prelude.{
  Bool, true, false, not, ◌≡◌, refl, ◌∙◌, ap, subst, Option, none, some, if_rule, if◌then◌else◌,
  arith,
}
use devvm.Text.{Text, eq_text}
use devvm.Text.Laws.{eq_text_eq}
use devvm.Config.HubName.{valid_name}
use devvm.Config.Edit.Cut.{cut_table}
use devvm.Config.Edit.Safe.{Cut, cut_table-Cut}
use devvm.Config.Edit.Plan.{
  Read, Result, changed_meanwhile, ok, failed, read_for_edit, has_entry, write_config, Edit,
  check_removed, plan_cut, plan_parsed, plan_remove, commit, remove_entry,
}
use devvm.Config.File.{File, Parsed, parsed, malformed, invalid, lookup}
use devvm.Config.File.Same.{same_except}
use devvm.Config.File.Same.Sound.{same_except-lookup}

abbrev pub IfOk {ℓ} : {A : Type ℓ} → (A → Type 0) → Result A → Type 0
IfOk P (failed w) = Unit
IfOk P (ok a) = P a

-- Two files whose parses differ at most in the entry of a name.
pub record DiffersIn (parse : Text → Parsed) (name file out : Text) (before after : File)
    : Type 0 where
  pub parsed_before : parse file ≡ parsed before
  pub parsed_after : parse out ≡ parsed after
  pub templates : (n : Text) → lookup n after.templates ≡ lookup n before.templates
  pub others :
      (n : Text) → eq_text n name ≡ false → lookup n after.entries ≡ lookup n before.entries

pub differs :
    (parse : Text → Parsed) (name file out : Text) (b a : File)
    → parse file ≡ parsed b
    → parse out ≡ parsed a
    → not (same_except b a name) ≡ false
    → DiffersIn parse name file out b a
differs parse name file out b a p q h =
    let s = same_except-lookup b a name (ground arith) in
    record { parsed_before = p; parsed_after = q; templates = s.0; others = s.1 }

-- A removal that was planned on one read of the file, and committed on a later one.
pub record Removed (parse : Text → Parsed) (name : Text) (r cur : Read) (out : Text) : Type 0 where
  pub file : Text
  pub was_read : read_for_edit r ≡ ok file
  pub unchanged : read_for_edit cur ≡ ok file
  pub before : File
  pub after : File
  pub diff : DiffersIn parse name file out before after
  pub was_there : has_entry name before ≡ true
  pub gone : has_entry name after ≡ false
  pub cut : Cut name file out

record IsPlan (parse : Text → Parsed) (name file : Text) (e : Edit) : Type 0 where
  same_file : e.from ≡ file
  before : File
  after : File
  diff : DiffersIn parse name file e.to before after
  was_there : has_entry name before ≡ true
  gone : has_entry name after ≡ false
  cut : Cut name file e.to

module _ (parse : Text → Parsed) (name file : Text) (b : File) (p : parse file ≡ parsed b) where
  check_removed-IsPlan :
      (out : Text) (y : Parsed)
      → parse out ≡ y
      → has_entry name b ≡ true
      → Cut name file out
      → IfOk (IsPlan parse name file) (check_removed b name file out y)
  unfolding check_removed
  check_removed-IsPlan out (parsed a) q t c =
      if_rule (IfOk (IsPlan parse name file)) (not (same_except b a name)) (λ x. tt)
        (λ x.
          if_rule (IfOk (IsPlan parse name file)) (has_entry name a) (λ y. tt)
            (λ y. record {
              same_file = refl;
              before = b;
              after = a;
              diff = differs parse name file out b a p q x;
              was_there = t;
              gone = y;
              cut = c;
            }))
  check_removed-IsPlan out malformed q t c = tt
  check_removed-IsPlan out (invalid errs) q t c = tt

  plan_cut-IsPlan :
      (o : Option Text)
      → cut_table file name ≡ o
      → has_entry name b ≡ true
      → IfOk (IsPlan parse name file) (plan_cut parse b name file o)
  unfolding plan_cut
  plan_cut-IsPlan none h t = tt
  plan_cut-IsPlan (some out) h t =
      check_removed-IsPlan out (parse out) refl t (cut_table-Cut name file {out = out} h)

plan_parsed-IsPlan :
    (parse : Text → Parsed) (name file : Text) (y : Parsed)
    → parse file ≡ y
    → IfOk (IsPlan parse name file) (plan_parsed parse name file y)
unfolding plan_parsed
plan_parsed-IsPlan parse name file (parsed b) p =
    if_rule (IfOk (IsPlan parse name file)) (not (has_entry name b)) (λ x. tt)
      (λ x. plan_cut-IsPlan parse name file b p (cut_table file name) refl (ground arith))
plan_parsed-IsPlan parse name file malformed p = tt
plan_parsed-IsPlan parse name file (invalid errs) p = tt

module _ (parse : Text → Parsed) (name : Text) (r cur : Read) (fails : Bool) where
  abbrev IsDone : Text → Type 0
  IsDone = Removed parse name r cur

  commit-Removed :
      (file : Text) (e : Edit) (x : Result Text)
      → read_for_edit r ≡ ok file
      → IsPlan parse name file e
      → read_for_edit cur ≡ x
      → IfOk IsDone (elim x [
        | failed w ↦ failed w
        | ok t ↦
            if not (eq_text t e.from) then failed changed_meanwhile else write_config fails e.to
      ])
  commit-Removed file e (failed w) h k c = tt
  commit-Removed file e (ok t) h k c =
      if_rule (IfOk IsDone) (not (eq_text t e.from)) (λ x. tt)
        (λ x.
          if_rule (IfOk IsDone) fails (λ y. tt)
            (λ y.
              let same : t ≡ file = eq_text_eq t e.from (ground arith) ∙ k.same_file in
              record {
                file = file;
                was_read = h;
                unchanged = c ∙ ap ok same;
                before = k.before;
                after = k.after;
                diff = k.diff;
                was_there = k.was_there;
                gone = k.gone;
                cut = k.cut;
              }))

  planned-Removed :
      (file : Text) (x : Result Edit)
      → read_for_edit r ≡ ok file
      → IfOk (IsPlan parse name file) x
      → IfOk IsDone (elim x [ failed w ↦ failed w | ok e ↦ commit e cur fails ])
  unfolding commit
  planned-Removed file (failed w) h k = tt
  planned-Removed file (ok e) h k = commit-Removed file e (read_for_edit cur) h k refl

  abbrev plan_read : Result Text → Result Edit
  plan_read x = elim x [ failed w ↦ failed w | ok file ↦ plan_parsed parse name file (parse file) ]

  abbrev then_commit : Result Edit → Result Text
  then_commit x = elim x [ failed w ↦ failed w | ok e ↦ commit e cur fails ]

  read-Removed : (x : Result Text) → read_for_edit r ≡ x → IfOk IsDone (then_commit (plan_read x))
  read-Removed (failed w) h = tt
  read-Removed (ok file) h =
      planned-Removed file (plan_parsed parse name file (parse file)) h
        (plan_parsed-IsPlan parse name file (parse file) refl)

  remove_entry-IfOk : IfOk IsDone (remove_entry parse name r cur fails)
  unfolding remove_entry plan_remove
  remove_entry-IfOk =
      if_rule (λ (x : Result Edit). IfOk IsDone (then_commit x)) (not (valid_name name)) (λ x. tt)
        (λ x. read-Removed (read_for_edit r) refl)

pub of_ok {ℓ} : {A : Type ℓ} (P : A → Type 0) (x : Result A) {a : A} → IfOk P x → x ≡ ok a → P a
of_ok P (failed w) k h = absurd (cc)
of_ok P (ok b) {a} k h = subst P {x = b} {y = a} (cc) k

-- Where RemoveEntry writes devvm.toml, the file parsed before and parses after, had the entry and
-- has it no more, has the same templates and the same other entries, and is the file that was read,
-- which had the same content when it was written, without one run of its lines: the header of the
-- name's table and the lines behind it, none of them a header, up to lines that are blank or
-- comments; where nothing is kept behind the table, the blank lines above its header go too.
pub remove_entry-Removed :
    (parse : Text → Parsed) (name : Text) (r cur : Read) (fails : Bool) {out : Text}
    → remove_entry parse name r cur fails ≡ ok out
    → Removed parse name r cur out
remove_entry-Removed parse name r cur fails {out} h =
    of_ok (Removed parse name r cur) (remove_entry parse name r cur fails) {a = out}
      (remove_entry-IfOk parse name r cur fails) h
