-- ===== src/Config/Edit/Named/Key.antt =====
-- internal/config/edit.go: the keys that `toml_key` writes, as `tableHeader` reads them.
use devvm.Prelude.{
  if_rule, ℕ, true, false, ◌≡◌, refl, sym, ◌∙◌, ap, [], ◌∷◌, ◌++◌, Option, some, arith, ◌==◌,
  is_empty,
}
use mathlib.Core.List.{append_assoc, append-nil}
use devvm.Text.{Text, lacks, newline, trim_space, is_space, trim_left, trim_right}
use devvm.Text.Laws.{cut-lacks, trim_right-last, lacks-append}
use devvm.Text.Quoted.{unquote}
use devvm.Config.Edit.{is_bare_char, all_bare, is_bare_key, escape_text, toml_string, toml_key}
use devvm.Config.Edit.Header.{
  closing_bracket, outside, quoted, basic_end, unquoted, segment, bare_segment, up_to_dot, push,
}
use devvm.Config.Edit.Quotable.{
  pushes, pushes-some, basic_end-Quotable, closing_bracket-Quotable, lacks-Quotable,
  escape_text-Quotable, unquote-escape_text,
}
use devvm.Config.Edit.Named.Bare.{
  bare_char_plain, trim_right-bare, lacks-bare, closing_bracket-bare,
}

-- What the lemmas below need of a key: it is no blank text, trimmed, one segment that reads as the
-- name, and the closing bracket is found behind it.
pub record KeyOf (name key : Text) : Type 0 where
  pub front : trim_left key ≡ key
  pub back : trim_right key ≡ key
  pub nonempty : is_empty key ≡ false
  pub reads : segment key ≡ some (name, [])
  pub no_end : lacks newline key ≡ true
  pub closed : (t : Text) → closing_bracket outside (key ++ b']' ∷ t) ≡ pushes key (some ([], t))

pub starts_plain : (c : ℕ) (s : Text) → is_space c ≡ false → trim_left (c ∷ s) ≡ c ∷ s
unfolding trim_left
starts_plain c s h = rw h refl

pub bare_head : (c : ℕ) (s : Text) → all_bare (c ∷ s) ≡ true → is_bare_char c ≡ true
unfolding all_bare
bare_head c s h = ground arith

pub segment-other :
    (c : ℕ) (s : Text)
    → (c == b'"') ≡ false
    → (c == b'\'') ≡ false
    → segment (c ∷ s) ≡ bare_segment (up_to_dot (c ∷ s))
unfolding segment
segment-other c s h k = rw (h, k) refl

up_to_dot-lacks : (s : Text) → lacks b'.' s ≡ true → up_to_dot s ≡ (s, [])
unfolding up_to_dot
up_to_dot-lacks s h = rw (cut-lacks b'.' s h, up_to_dot) refl

pub bare_segment_trimmed :
    (a r : Text) → is_bare_key a ≡ true → trim_space a ≡ a → bare_segment (a, r) ≡ some (a, r)
unfolding bare_segment
bare_segment_trimmed a r h t = rw (t, h) refl

pub trim_space-bare : (c : ℕ) (s : Text) → all_bare (c ∷ s) ≡ true → trim_space (c ∷ s) ≡ c ∷ s
unfolding trim_space
trim_space-bare c s h =
    ap trim_right (starts_plain c s (bare_char_plain c (bare_head c s h)).0) ∙ trim_right-bare c s h

segment-bare : (c : ℕ) (s : Text) → all_bare (c ∷ s) ≡ true → segment (c ∷ s) ≡ some (c ∷ s, [])
unfolding is_bare_key
segment-bare c s h =
    let p = bare_char_plain c (bare_head c s h) in
    segment-other c s p.3 p.4
    ∙ ap bare_segment (up_to_dot-lacks (c ∷ s) (lacks-bare (c ∷ s) h).0)
    ∙ bare_segment_trimmed (c ∷ s) [] h (trim_space-bare c s h)

unquoted-some : (a u r : Text) → unquote a ≡ some u → unquoted (some (a, r)) ≡ some (u, r)
unfolding unquoted
unquoted-some a u r h = rw (h, unquoted) refl

quoted_reads :
    (name : Text) → unquoted (basic_end false (escape_text name ++ b'"' ∷ [])) ≡ some (name, [])
unfolding basic_end
quoted_reads name =
    ap unquoted (
      basic_end-Quotable (escape_text-Quotable name) (b'"' ∷ [])
      ∙ pushes-some (escape_text name) [] []
      ∙ ap (λ (a : Text). some (a, [])) (append-nil (escape_text name)))
    ∙ unquoted-some (escape_text name) name [] (unquote-escape_text name)

pushes-append : (a b : Text) (o : Option (Text × Text)) → pushes (a ++ b) o ≡ pushes a (pushes b o)
pushes-append [] b o = refl
pushes-append (c ∷ a) b o = ap (push c) (pushes-append a b o)

quoted_closed :
    (name t : Text)
    → closing_bracket (quoted b'"') ((escape_text name ++ b'"' ∷ []) ++ b']' ∷ t)
      ≡ pushes (escape_text name ++ b'"' ∷ []) (some ([], t))
unfolding closing_bracket
quoted_closed name t =
    ap (closing_bracket (quoted b'"')) (append_assoc (escape_text name) (b'"' ∷ []) (b']' ∷ t))
    ∙ closing_bracket-Quotable (escape_text-Quotable name) (b'"' ∷ b']' ∷ t)
    ∙ sym (pushes-append (escape_text name) (b'"' ∷ []) (some ([], t)))

bare-KeyOf : (name : Text) → is_bare_key name ≡ true → KeyOf name name
unfolding is_bare_key closing_bracket
bare-KeyOf [] h = absurd (cc)
bare-KeyOf (c ∷ s) h = record {
  front = starts_plain c s (bare_char_plain c (bare_head c s h)).0;
  back = trim_right-bare c s h;
  nonempty = refl;
  reads = segment-bare c s h;
  no_end = (lacks-bare (c ∷ s) h).1;
  closed = λ t. closing_bracket-bare (c ∷ s) (b']' ∷ t) h;
}

quoted-KeyOf : (name : Text) → KeyOf name (toml_string name)
unfolding toml_string segment closing_bracket lacks
quoted-KeyOf name = record {
  front = refl;
  back = trim_right-last (b'"' ∷ escape_text name) b'"' refl;
  nonempty = refl;
  reads = quoted_reads name;
  no_end =
      lacks-append newline (escape_text name) (b'"' ∷ [])
        (lacks-Quotable (escape_text-Quotable name)) refl;
  closed = λ t. ap (push b'"') (quoted_closed name t);
}

pub toml_key-KeyOf : (name : Text) → KeyOf name (toml_key name)
unfolding toml_key
toml_key-KeyOf name =
    if_rule (KeyOf name) (is_bare_key name) (bare-KeyOf name) (λ e. quoted-KeyOf name)
