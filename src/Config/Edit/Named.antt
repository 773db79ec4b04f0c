-- ===== src/Config/Edit/Named.antt =====
-- `MachineTable` and `tableHeader` of internal/config/edit.go: the header that is written for a name
-- is read back as the key of that name.
pub mod Bare
pub mod Key
use devvm.Prelude.{
  if_rule, ℕ, suc, true, false, ◌≡◌, refl, sym, ◌∙◌, ap, [], ◌∷◌, ◌++◌, Option, some, arith, ◌==◌,
  is_empty, length,
}
use mathlib.Core.List.{append_assoc, append-nil}
use devvm.Text.{Text, codes, lacks, newline, trim_space, is_space, trim_left, trim_right}
use devvm.Text.Laws.{
  cut-append, cut-lacks, trim_right-last, trim_right-between, trim_right-blank, lacks-append,
}
use devvm.Text.Quoted.{unquote}
use devvm.Config.HubName.{is_alnum}
use devvm.Config.Edit.{
  is_bare_char, all_bare, is_bare_key, escape_text, toml_string, toml_key, machines, machine_table,
}
use devvm.Config.Edit.Header.{
  closing_bracket, outside, quoted, basic_end, unquoted, segment, bare_segment, up_to_dot, segments,
  led_by, key_of, split_rounds, after_segment, split_key, header_key, table_header, push,
}
use devvm.Config.Edit.Quotable.{
  pushes, pushes-some, basic_end-Quotable, closing_bracket-Quotable, lacks-Quotable,
  escape_text-Quotable, unquote-escape_text,
}
use devvm.Config.Edit.Named.Bare.{
  bare_char_plain, trim_right-bare, lacks-bare, closing_bracket-bare,
}
use devvm.Config.Edit.Named.Key.{
  KeyOf, starts_plain, bare_head, segment-other, bare_segment_trimmed, trim_space-bare,
  toml_key-KeyOf,
}

split_rounds-step :
    (n : ℕ) (s : Text) {seg r : Text}
    → segment (trim_space s) ≡ some (seg, r)
    → split_rounds (suc n) s ≡ after_segment seg (trim_space r) (split_rounds n)
unfolding split_rounds
split_rounds-step n s h = rw (h, split_rounds) refl

trimmed_between :
    (a : Text) (c : ℕ) {name key : Text}
    → KeyOf name key
    → trim_left (a ++ c ∷ key) ≡ a ++ c ∷ key
    → trim_space (a ++ c ∷ key) ≡ a ++ c ∷ key
unfolding trim_space
trimmed_between a c {name} {key} k h =
    ap trim_right h ∙ trim_right-between a c key k.nonempty k.back

up_to_dot-append :
    (a key : Text) → lacks b'.' a ≡ true → up_to_dot (a ++ b'.' ∷ key) ≡ (a, b'.' ∷ key)
unfolding up_to_dot
up_to_dot-append a key h = rw (cut-append b'.' a key h, up_to_dot) refl

-- Dotted keys whose first segment is bare.
module _ (c : ℕ) (s : Text) (h : all_bare (c ∷ s) ≡ true) {name key : Text}
    (k : KeyOf name key) where
  segment-dotted : segment (c ∷ (s ++ b'.' ∷ key)) ≡ some (c ∷ s, b'.' ∷ key)
  unfolding is_bare_key
  segment-dotted =
      let p = bare_char_plain c (bare_head c s h) in
      segment-other c (s ++ b'.' ∷ key) p.3 p.4
      ∙ ap bare_segment (up_to_dot-append (c ∷ s) key (lacks-bare (c ∷ s) h).0)
      ∙ bare_segment_trimmed (c ∷ s) (b'.' ∷ key) h (trim_space-bare c s h)

  trimmed_dotted : trim_space (c ∷ (s ++ b'.' ∷ key)) ≡ c ∷ (s ++ b'.' ∷ key)
  trimmed_dotted =
      trimmed_between (c ∷ s) b'.' k
        (starts_plain c (s ++ b'.' ∷ key) (bare_char_plain c (bare_head c s h)).0)

  first_round :
      (n : ℕ)
      → split_rounds (suc n) (c ∷ (s ++ b'.' ∷ key))
        ≡ after_segment (c ∷ s) (b'.' ∷ key) (split_rounds n)
  unfolding is_space
  first_round n =
      split_rounds-step n (c ∷ (s ++ b'.' ∷ key)) (ap segment trimmed_dotted ∙ segment-dotted)
      ∙ ap (λ (r : Text). after_segment (c ∷ s) r (split_rounds n))
          (trimmed_between [] b'.' k (starts_plain b'.' key refl))

last_round :
    (n : ℕ) {name key : Text} → KeyOf name key → split_rounds (suc n) key ≡ segments (name ∷ [])
unfolding trim_space after_segment trim_left trim_right
last_round n {name} {key} k =
    split_rounds-step n key (ap segment (ap trim_right k.front ∙ k.back) ∙ k.reads)

-- A key behind the name of the tables of machines.
module _ (name key : Text) (k : KeyOf name key) where
  both_rounds :
      (n : ℕ)
      → split_rounds (suc (suc n)) (machines ++ b'.' ∷ key) ≡ segments (machines ∷ name ∷ [])
  unfolding after_segment all_bare led_by
  both_rounds n =
      first_round b'm' (codes "achines") refl k (suc n) ∙ rw (last_round n {name = name} k) refl

  split_machines : split_key (machines ++ b'.' ∷ key) ≡ some (machines ∷ name ∷ [])
  unfolding split_key key_of
  split_machines =
      ap key_of (both_rounds (suc (suc (suc (suc (suc (suc (suc (suc (length key))))))))))

-- `MachineTable`, in any key that reads as the name.
abbrev table_of : Text → Text
table_of key = b'[' ∷ (machines ++ b'.' ∷ (key ++ b']' ∷ []))

trimmed_end :
    (key tail : Text)
    → trim_right tail ≡ []
    → trim_right ((key ++ b']' ∷ []) ++ tail) ≡ key ++ b']' ∷ []
unfolding is_space
trimmed_end key tail h = trim_right-blank (key ++ b']' ∷ []) tail h ∙ trim_right-last key b']' refl

table_header-table_of :
    (name key tail : Text)
    → KeyOf name key
    → trim_right tail ≡ []
    → table_header (table_of key ++ tail) ≡ some (machines ∷ name ∷ [])
unfolding table_header header_key trim_space trim_left trim_right
table_header-table_of name key tail k h =
    let scan : Text → Option (Text × Text) =
      λ u. pushes (codes "machines.") (closing_bracket outside u) in
    ap header_key (
      ap scan (trimmed_end key tail h)
      ∙ ap (pushes (codes "machines."))
          (k.closed [] ∙ pushes-some key [] [] ∙ ap (λ (a : Text). some (a, [])) (append-nil key)))
    ∙ split_machines name key k

-- The header line that is written for a name, with any blank text behind it such as a line's end,
-- is the header of that name: whatever characters the name has.
pub table_header-machine_table :
    (name tail : Text)
    → trim_right tail ≡ []
    → table_header (machine_table name ++ tail) ≡ some (machines ∷ name ∷ [])
unfolding machine_table
table_header-machine_table name tail h =
    table_header-table_of name (toml_key name) tail (toml_key-KeyOf name) h

pub lacks-machine_table : (name : Text) → lacks newline (machine_table name) ≡ true
unfolding machine_table lacks
lacks-machine_table name =
    lacks-append newline (toml_key name) (b']' ∷ []) (toml_key-KeyOf name).no_end refl
