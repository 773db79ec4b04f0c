-- ===== src/Config/Edit/Undone.antt =====
-- `AppendEntry` and `cutTable` of internal/config/edit.go: a cut undoes an append.
use devvm.Prelude.{
  ℕ, true, false, ◌≡◌, refl, sym, ◌∙◌, ap, List, [], ◌∷◌, ◌++◌, map, Option, none, some, if_rule,
  All, All-append, All-map, subst,
}
use mathlib.Core.List.{append_assoc, append-nil}
use devvm.Text.{Text, lacks, newline, trim_right, trim_space}
use devvm.Text.Laws.{eq_text_refl}
use devvm.Config.Entry.{Entry}
use devvm.Config.Edit.{
  machine_table, key_lines, with_ends, render_entry, line_end, ends_line, ended, gap, appended,
}
use devvm.Config.Edit.Header.{table_header, trimmed_header}
use devvm.Config.Edit.Cut.{
  split_after, join_lines, is_blank, is_loose, names_machine, is_header, Found, found_later,
  find_table, until_header, split_tail, split_head, cut_gap, kept_before, cut_found, cut_table,
}
use devvm.Config.Edit.Named.{table_header-machine_table, lacks-machine_table}
use devvm.Config.Edit.Lines.{
  split_after-ended, IsEnd, line_end-IsEnd, split_after-end, split_tail_full, split_tail-append,
}
use devvm.Config.Edit.Keys.{IsKeyLine, key_lines-IsKeyLine, lettered}
use devvm.Config.Edit.Safe.Pieces.{split_tail_parts, join_lines-split_after}

abbrev IsOneLine : Text → Type 0
IsOneLine l = lacks newline l ≡ true

split_after-with_ends :
    (nl : Text) (ls : List Text)
    → IsEnd nl
    → All IsOneLine ls
    → split_after (with_ends nl ls) ≡ map (λ (l : Text). l ++ nl) ls
unfolding with_ends split_after
split_after-with_ends nl [] e h = refl
split_after-with_ends nl (l ∷ ls) e h =
    split_after-end nl l (with_ends nl ls) e h.0
    ∙ ap (λ (r : List Text). (l ++ nl) ∷ r) (split_after-with_ends nl ls e h.1)

-- The appended lines: no header but the first, and nothing that a cut would keep.
abbrev IsContent : Text → Type 0
IsContent l = (table_header l ≡ none) × (is_loose l ≡ false)

keys-IsContent :
    (nl : Text) (ls : List Text) → All IsKeyLine ls → All IsContent (map (λ (l : Text). l ++ nl) ls)
keys-IsContent nl [] h = tt
keys-IsContent nl (l ∷ ls) h =
    let k = h.0 in
    (
      subst (λ (x : Text). IsContent (x ++ nl)) {x = k.letter ∷ k.tail} {y = l} (sym k.starts)
          (lettered k.letter (k.tail ++ nl) k.is_letter),
      keys-IsContent nl ls h.1,
    )

until_header-content : (ls : List Text) → All IsContent ls → until_header ls ≡ (ls, [])
unfolding until_header is_header
until_header-content [] h = refl
until_header-content (l ∷ ls) h = rw (until_header-content ls h.1, h.0.0) refl

abbrev pub LacksTable : Text → List Text → Type 0
LacksTable name ls = All (λ l. names_machine name (table_header l) ≡ false) ls

find_table-after :
    (name : Text) (before : List Text) {header : Text} (after : List Text)
    → LacksTable name before
    → names_machine name (table_header header) ≡ true
    → find_table name (before ++ header ∷ after)
      ≡ some (record { before = before; header = header; after = after })
unfolding find_table found_later
find_table-after name [] after h k = rw k refl
find_table-after name (l ∷ ls) {header} after h k =
    rw (h.0, find_table-after name ls {header = header} after h.1 k) refl

-- The cut of a table that ends the file, where what is above it ends in a gap.
cut_last :
    (before above : List Text) (header : Text) (after : List Text)
    → (split_tail is_blank before).1 ≡ []
    → All (λ l. is_blank l ≡ true) above
    → All IsContent after
    → cut_found (record { before = before ++ above; header = header; after = after })
      ≡ join_lines before
unfolding cut_found cut_gap kept_before split_tail split_head join_lines
cut_last before above header after h g c =
    rw
      (
        until_header-content after c,
        split_tail_full is_loose after (All-map IsContent _ after (λ l k. k.1) c),
      )
      (ap (λ (ls : List Text). join_lines ls ++ [])
          (split_tail-append is_blank before above g
            ∙ sym (append-nil (split_tail is_blank before).0)
            ∙ ap (λ (ls : List Text). (split_tail is_blank before).0 ++ ls) (sym h)
            ∙ sym (split_tail_parts is_blank before))
        ∙ append-nil (join_lines before))

abbrev cut_opt : Option Found → Option Text
cut_opt o = elim o [ none ↦ none | some f ↦ some (cut_found f) ]

cut_lines : Text → List Text → Option Text
cut_lines name ls = cut_opt (find_table name ls)

named_here :
    (name tail : Text)
    → trim_right tail ≡ []
    → names_machine name (table_header (machine_table name ++ tail)) ≡ true
unfolding names_machine
named_here name tail h = rw (table_header-machine_table name tail h) (rw (eq_text_refl name) refl)

blank_line : (nl : Text) → IsEnd nl → (is_blank nl ≡ true) × (table_header nl ≡ none)
unfolding is_blank table_header trimmed_header trim_space trim_right
blank_line nl e = rw e.blank_left (refl, refl)

-- Lines in front of a table that is put behind them, and behind them blank ones.
cut_appended :
    (name : Text) (e : Entry) (nl : Text) (before above : List Text)
    → IsEnd nl
    → LacksTable name before
    → LacksTable name above
    → All (λ l. is_blank l ≡ true) above
    → (split_tail is_blank before).1 ≡ []
    → cut_lines name (before ++ above ++ split_after (render_entry nl name e))
      ≡ some (join_lines before)
unfolding cut_lines render_entry
cut_appended name e nl before above i l m b h =
    let keys = map (λ (k : Text). k ++ nl) (key_lines e) in
    let after : All IsContent keys = keys-IsContent nl (key_lines e) (key_lines-IsKeyLine e) in
    let table = split_after-with_ends nl (machine_table name ∷ key_lines e) i (
      lacks-machine_table name,
      All-map IsKeyLine IsOneLine (key_lines e) (λ x k. k.one_line) (key_lines-IsKeyLine e),
    ) in
    ap cut_opt (
      ap (λ (ls : List Text). find_table name (before ++ above ++ ls)) table
      ∙ find_table-after name (before ++ above) {header = machine_table name ++ nl} keys
          (All-append _ before above l m) (named_here name nl i.blank))
    ∙ ap some (cut_last before above (machine_table name ++ nl) keys h b after)

newline_ends : (a : Text) → ends_line (a ++ newline ∷ []) ≡ true
unfolding ends_line
newline_ends [] = refl
newline_ends (c ∷ []) = refl
newline_ends (c ∷ d ∷ a) = newline_ends (d ∷ a)

ends_line-append : (a nl : Text) → IsEnd nl → ends_line (a ++ nl) ≡ true
ends_line-append a nl i =
    ap ends_line
      (ap (λ (x : Text). a ++ x) i.is_front ∙ sym (append_assoc a i.front (newline ∷ [])))
    ∙ newline_ends (a ++ i.front)

ended-ends_line : (c : ℕ) (s : Text) → ends_line (ended (c ∷ s)) ≡ true
unfolding ended
ended-ends_line c s =
    if_rule (λ (t : Text). ends_line t ≡ true) (ends_line (c ∷ s)) (λ e. e)
      (λ e. ends_line-append (c ∷ s) (line_end (c ∷ s)) (line_end-IsEnd (c ∷ s)))

-- An entry of any name and any fields that is appended to a file without such a table, whose last
-- line is not blank, is cut again by its name: the file is back byte for byte, but that its last
-- line is ended.
pub cut_table-appended :
    (file name : Text) (e : Entry)
    → LacksTable name (split_after (ended file))
    → (split_tail is_blank (split_after (ended file))).1 ≡ []
    → cut_table (appended file name e) name ≡ some (ended file)
unfolding cut_table appended gap cut_lines split_tail lacks
cut_table-appended [] name e l h =
    cut_appended name e (line_end []) [] [] (line_end-IsEnd []) tt tt tt refl
cut_table-appended (c ∷ s) name e l h =
    let file = c ∷ s in
    let nl = line_end file in
    let i = line_end-IsEnd file in
    let blank = blank_line nl i in
    let r = render_entry nl name e in
    let lines : split_after (ended file ++ nl ++ r)
        ≡ split_after (ended file) ++ (nl ∷ []) ++ split_after r =
      ap split_after (append_assoc (ended file) nl r)
      ∙ split_after-ended (ended file) (nl ++ r) (ended-ends_line c s)
      ∙ ap (λ (ls : List Text). split_after (ended file) ++ ls) (split_after-end nl [] r i refl)
      ∙ sym (append_assoc (split_after (ended file)) (nl ∷ []) (split_after r)) in
    ap (cut_lines name) lines
    ∙ cut_appended name e nl (split_after (ended file)) (nl ∷ []) i l
        (rw (blank.1, names_machine) refl, tt) (blank.0, tt) h
    ∙ ap some (join_lines-split_after (ended file))
