-- ===== src/Config/Edit/Safe.antt =====
-- `cutTable` of internal/config/edit.go: what a cut removes, and what it keeps.
pub mod Pieces
pub mod Searched
use devvm.Prelude.{
  if◌then◌else◌, Bool, true, false, ◌&&◌, ◌≡◌, ◌⊎◌, inl, inr, refl, sym, ◌∙◌, ap, List, [], ◌∷◌,
  ◌++◌, Option, none, some, ◌==◌, Bool-cases, is_empty, nil_of_empty, All, arith, subst, if_rule,
}
use mathlib.Core.List.{append_assoc, append-nil}
use devvm.Text.{Text, newline, prepend}
use devvm.Text.Laws.{eq_text_eq}
use devvm.Config.Edit.{machines}
use devvm.Config.Edit.Header.{table_header}
use devvm.Config.Edit.Cut.{
  split_after, join_lines, is_blank, is_comment, is_loose, names_machine, is_header, Found,
  found_later, find_table, until_header, split_tail, split_head, cut_gap, kept_before, cut_found,
  cut_table,
}
use devvm.Config.Edit.Safe.Pieces.{
  join_lines-append, split_tail_parts, split_head_parts, split_tail_passes, until_header_parts,
  until_header-IsBody,
}
use devvm.Config.Edit.Safe.Searched.{IsFound, IsGap, IfFound, find_table-IfFound, cut_gap-IsGap}

abbrev pub StartsTable : List Text → Type 0
StartsTable [] = Unit
StartsTable (l ∷ ls) = is_header (table_header l) ≡ true

until_header_next : (xs : List Text) → StartsTable (until_header xs).1
unfolding until_header
until_header_next [] = tt
until_header_next (x ∷ xs) = elim (Bool-cases (is_header (table_header x))) [
  | inl h ↦ rw h h
  | inr h ↦ rw h (until_header_next xs)
]

-- How a cut splits the file's lines. `own` are the table's keys and what goes with them; `gap` are
-- blank lines above its header, which go where nothing is kept behind it; `kept` stand before the
-- next header.
pub record Cut (name file out : Text) : Type 0 where
  pub before : List Text
  pub gap : List Text
  pub header : Text
  pub own : List Text
  pub kept : List Text
  pub next : List Text
  pub splits : split_after file ≡ before ++ gap ++ header ∷ (own ++ (kept ++ next))
  pub left : out ≡ join_lines (before ++ (kept ++ next))
  pub named : table_header header ≡ some (machines ∷ name ∷ [])
  pub first : All (λ l. names_machine name (table_header l) ≡ false) (before ++ gap)
  pub gap_blank : All (λ l. is_blank l ≡ true) gap
  pub gap_at_end : (gap ≡ []) ⊎ (kept ++ next ≡ [])
  pub own_body : All (λ l. table_header l ≡ none) own
  pub kept_loose : All (λ l. is_loose l ≡ true) kept
  pub next_header : StartsTable next

-- The blank lines above the header, where the table ran to the end of the file.
record IsAbove (before rest kept : List Text) : Type 0 where
  blanks : List Text
  splits : before ≡ kept ++ blanks
  blank : All (λ l. is_blank l ≡ true) blanks
  at_end : (blanks ≡ []) ⊎ (rest ≡ [])

kept_before-IsAbove : (before rest : List Text) → IsAbove before rest (kept_before before rest)
unfolding kept_before
kept_before-IsAbove before rest =
    if_rule (IsAbove before rest) (is_empty rest)
      (λ e. record {
        blanks = (split_tail is_blank before).1;
        splits = split_tail_parts is_blank before;
        blank = split_tail_passes is_blank before;
        at_end = inr (nil_of_empty rest e);
      })
      (λ e. record { blanks = []; splits = sym (append-nil before); blank = tt; at_end = inl refl })

All-front : (P : Text → Type 0) (a b : List Text) → All P (a ++ b) → All P a
All-front P [] b h = tt
All-front P (x ∷ a) b h = (h.0, All-front P a b h.1)

All-along : (P : Text → Type 0) {a b : List Text} → a ≡ b → All P a → All P b
All-along P {a} {b} e h = subst (λ (l : List Text). All P l) {x = a} {y = b} e h

All-back : (P : Text → Type 0) (a b : List Text) → All P (a ++ b) → All P b
All-back P [] b h = h
All-back P (x ∷ a) b h = All-back P a b h.1

module _ (name file : Text) (f : Found) (k : IsFound name (split_after file) f) where
  abbrev body : List Text
  body = (until_header f.after).0

  abbrev next : List Text
  next = (until_header f.after).1

  abbrev content : List Text
  content = (split_tail is_loose body).0

  abbrev loose : List Text
  loose = (split_tail is_loose body).1

  abbrev rest : List Text
  rest = (cut_gap loose next).1

  abbrev own : List Text
  own = content ++ (cut_gap loose next).0

  body_parts : body ≡ own ++ (cut_gap-IsGap loose next).kept
  body_parts =
      split_tail_parts is_loose body
      ∙ ap (λ (x : List Text). content ++ x) (cut_gap-IsGap loose next).gone_first
      ∙ sym (append_assoc content (cut_gap loose next).0 (cut_gap-IsGap loose next).kept)

  after_parts : f.after ≡ own ++ ((cut_gap-IsGap loose next).kept ++ next)
  after_parts =
      until_header_parts f.after
      ∙ ap (λ (x : List Text). x ++ next) body_parts
      ∙ append_assoc own (cut_gap-IsGap loose next).kept next

  cut_found-Cut : Cut name file (cut_found f)
  unfolding cut_found
  cut_found-Cut =
      let g = cut_gap-IsGap loose next in
      let above = kept_before-IsAbove f.before rest in
      record {
        before = kept_before f.before rest;
        gap = above.blanks;
        header = f.header;
        own = own;
        kept = g.kept;
        next = next;
        splits =
            k.splits
            ∙ ap (λ (x : List Text). x ++ f.header ∷ f.after) above.splits
            ∙ ap (λ (x : List Text). kept_before f.before rest ++ above.blanks ++ f.header ∷ x)
                after_parts;
        left =
            sym (join_lines-append (kept_before f.before rest) rest)
            ∙ ap (λ (x : List Text). join_lines (kept_before f.before rest ++ x)) g.rest_is;
        named = k.named;
        first = All-along _ above.splits k.first;
        gap_blank = above.blank;
        gap_at_end = elim above.at_end [ inl e ↦ inl e | inr e ↦ inr (sym g.rest_is ∙ e) ];
        own_body = All-front _ own g.kept (All-along _ body_parts (until_header-IsBody f.after));
        kept_loose =
            All-back _ (cut_gap loose next).0 g.kept
              (All-along _ g.gone_first (split_tail_passes is_loose body));
        next_header = until_header_next f.after;
      }

searched-Cut :
    (name file : Text) (o : Option Found) {out : Text}
    → IfFound name (split_after file) o
    → ◌≡◌ {A = Option Text} (elim o [ none ↦ none | some f ↦ some (cut_found f) ]) (some out)
    → Cut name file out
searched-Cut name file none k h = absurd (cc)
searched-Cut name file (some f) {out} k h =
    subst (λ (t : Text). Cut name file t) {x = cut_found f} {y = out} (cc)
      (cut_found-Cut name file f k)

-- What `cutTable` leaves is the file without one run of its lines: the header of the name's table
-- and the lines behind it, none of which is a header, up to lines that are blank or comments; where
-- nothing is kept behind the table, the blank lines above its header go too. Everything else stays,
-- in order.
pub cut_table-Cut :
    (name file : Text) {out : Text} → cut_table file name ≡ some out → Cut name file out
unfolding cut_table
cut_table-Cut name file {out} h =
    searched-Cut name file (find_table name (split_after file)) {out = out}
      (find_table-IfFound name (split_after file)) h
