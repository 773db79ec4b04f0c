-- ===== src/Config/Edit/Safe/Searched.antt =====
-- internal/config/edit.go: what `find_table` finds, and the lines that go behind a table's keys.
use devvm.Prelude.{
  if◌then◌else◌, true, false, ◌≡◌, refl, sym, ◌∙◌, ap, List, [], ◌∷◌, ◌++◌, Option, none, some,
  is_empty, All, arith, subst, if_rule,
}
use mathlib.Core.List.{append_assoc, append-nil}
use devvm.Text.{Text}
use devvm.Text.Laws.{eq_text_eq}
use devvm.Config.Edit.{machines}
use devvm.Config.Edit.Header.{table_header}
use devvm.Config.Edit.Cut.{
  is_blank, is_comment, names_machine, Found, found_later, find_table, split_tail, split_head,
  cut_gap,
}
use devvm.Config.Edit.Safe.Pieces.{split_tail_parts, split_head_parts}

-- What `find_table` finds.
pub record IsFound (name : Text) (ls : List Text) (f : Found) : Type 0 where
  pub splits : ls ≡ f.before ++ f.header ∷ f.after
  pub named : table_header f.header ≡ some (machines ∷ name ∷ [])
  pub first : All (λ l. names_machine name (table_header l) ≡ false) f.before

named_key :
    (name : Text) (k : Option (List Text))
    → names_machine name k ≡ true
    → k ≡ some (machines ∷ name ∷ [])
unfolding names_machine
named_key name none h = absurd (cc)
named_key name (some []) h = absurd (cc)
named_key name (some (a ∷ [])) h = absurd (cc)
named_key name (some (a ∷ b ∷ [])) h =
    let m = eq_text_eq a machines (ground arith) in let n = eq_text_eq b name (ground arith) in cc
named_key name (some (a ∷ b ∷ c ∷ k)) h = absurd (cc)

abbrev pub IfFound : Text → List Text → Option Found → Type 0
IfFound name ls none = Unit
IfFound name ls (some f) = IsFound name ls f

found_later-IfFound :
    (name l : Text) (ls : List Text) (o : Option Found)
    → names_machine name (table_header l) ≡ false
    → IfFound name ls o
    → IfFound name (l ∷ ls) (found_later l o)
unfolding found_later
found_later-IfFound name l ls none h k = tt
found_later-IfFound name l ls (some f) h k = record {
  splits = ap (λ (r : List Text). l ∷ r) k.splits;
  named = k.named;
  first = (h, k.first);
}

pub find_table-IfFound : (name : Text) (ls : List Text) → IfFound name ls (find_table name ls)
unfolding find_table
find_table-IfFound name [] = tt
find_table-IfFound name (l ∷ ls) =
    if_rule (IfFound name (l ∷ ls)) (names_machine name (table_header l))
      (λ h. record { splits = refl; named = named_key name (table_header l) h; first = tt })
      (λ h. found_later-IfFound name l ls (find_table name ls) h (find_table-IfFound name ls))

-- The lines that go behind the table's keys are the first of those there; the rest stays.
pub record IsGap (loose next : List Text) (r : List Text × List Text) : Type 0 where
  pub kept : List Text
  pub gone_first : loose ≡ r.0 ++ kept
  pub rest_is : r.1 ≡ kept ++ next

regroup :
    (a b c t : List Text) {m r : List Text}
    → m ≡ a ++ r
    → r ≡ b ++ c
    → m ++ t ≡ (a ++ b) ++ (c ++ t)
regroup a b c t e d =
    ap (λ (x : List Text). x ++ t) (e ∙ ap (λ (x : List Text). a ++ x) d ∙ sym (append_assoc a b c))
    ∙ append_assoc (a ++ b) c t

abbrev gap_of : List Text → List Text × List Text → List Text × List Text
gap_of next (mid, above) =
    let (glued, r) = split_head is_comment mid in
    let (blanks, left) = split_head is_blank r in (glued ++ blanks, left ++ above ++ next)

gap_of-IsGap :
    (next : List Text) (q : List Text × List Text) → IsGap (q.0 ++ q.1) next (gap_of next q)
gap_of-IsGap next (mid, above) =
    let r = (split_head is_comment mid).1 in
    record {
      kept = (split_head is_blank r).1 ++ above;
      gone_first =
          regroup _ _ _ above (split_head_parts is_comment mid) (split_head_parts is_blank r);
      rest_is = refl;
    }

pub cut_gap-IsGap : (loose next : List Text) → IsGap loose next (cut_gap loose next)
unfolding cut_gap
cut_gap-IsGap loose next =
    let q = if is_empty next then (loose, []) else split_tail is_comment loose in
    subst (λ (l : List Text). IsGap l next (gap_of next q)) {x = q.0 ++ q.1} {y = loose}
      (sym (
        if_rule (λ (p : List Text × List Text). loose ≡ p.0 ++ p.1) (is_empty next)
          (λ e. sym (append-nil loose)) (λ e. split_tail_parts is_comment loose)))
      (gap_of-IsGap next q)
