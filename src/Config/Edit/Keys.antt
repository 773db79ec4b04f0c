-- ===== src/Config/Edit/Keys.antt =====
-- The lines of `renderEntry`, of internal/config/edit.go: none of them is taken for a header, a
-- comment or a blank line.
use devvm.Prelude.{
  ℕ, suc, Bool, true, false, ◌&&◌, ◌≡◌, refl, [], ◌∷◌, ◌++◌, Option, none, some, ◌==◌, leb, if_rule,
  is_empty, All, All-append, arith,
}
use devvm.Text.{Text, codes, lacks, newline, is_space, trim_left, trim_right, trim_space}
use devvm.Text.Laws.{lacks-append}
use devvm.Config.Entry.{Entry}
use devvm.Config.Templates.{ℤ, pos, negsuc}
use devvm.Text.Decimal.RoundTrip.{format_nat-lacks}
use devvm.Config.Edit.{
  toml_string, escape_text, managed_line, set_line, timeout_line, key_lines, key_line,
  format_signed, is_zero,
}
use devvm.Config.Edit.Header.{table_header, trimmed_header}
use devvm.Config.Edit.Cut.{is_blank, is_comment, is_loose}
use devvm.Config.Edit.Quotable.{lacks-Quotable, escape_text-Quotable}

-- A key line: it starts with a letter, and is one line.
pub record IsKeyLine (l : Text) : Type 0 where
  pub letter : ℕ
  pub tail : Text
  pub is_letter : (leb 97 letter && leb letter 122) ≡ true
  pub starts : l ≡ letter ∷ tail
  pub one_line : lacks newline l ≡ true

lacks-toml_string : (s : Text) → lacks newline (toml_string s) ≡ true
unfolding toml_string lacks
lacks-toml_string s =
    lacks-append newline (escape_text s) (b'"' ∷ []) (lacks-Quotable (escape_text-Quotable s)) refl

lacks-format_signed : (n : ℤ) → lacks newline (format_signed n) ≡ true
unfolding format_signed lacks
lacks-format_signed (pos n) = format_nat-lacks newline n refl
lacks-format_signed (negsuc n) = format_nat-lacks newline (suc n) refl

key_line-IsKeyLine :
    (c : ℕ) (k v : Text)
    → (leb 97 c && leb c 122) ≡ true
    → lacks newline (c ∷ k) ≡ true
    → lacks newline v ≡ true
    → IsKeyLine (key_line (c ∷ k) v)
unfolding lacks
key_line-IsKeyLine c k v h l m = record {
  letter = c;
  tail = k ++ codes " = " ++ v;
  is_letter = h;
  starts = refl;
  one_line =
      lacks-append newline (c ∷ (k ++ codes " = ")) v
        (lacks-append newline (c ∷ k) (codes " = ") l refl) m;
}

set_line-IsKeyLine :
    (c : ℕ) (k v : Text)
    → (leb 97 c && leb c 122) ≡ true
    → lacks newline (c ∷ k) ≡ true
    → All IsKeyLine (set_line (c ∷ k) v)
unfolding set_line
set_line-IsKeyLine c k v h l =
    if_rule (All IsKeyLine) (is_empty v) (λ e. tt)
      (λ e. (key_line-IsKeyLine c k (toml_string v) h l (lacks-toml_string v), tt))

managed_line-IsKeyLine : (m : Option Bool) → All IsKeyLine (managed_line m)
unfolding managed_line lacks
managed_line-IsKeyLine none = tt
managed_line-IsKeyLine (some true) =
    (key_line-IsKeyLine b'm' (codes "anaged") (codes "true") refl refl refl, tt)
managed_line-IsKeyLine (some false) =
    (key_line-IsKeyLine b'm' (codes "anaged") (codes "false") refl refl refl, tt)

timeout_line-IsKeyLine : (t : ℤ) → All IsKeyLine (timeout_line t)
unfolding timeout_line lacks
timeout_line-IsKeyLine t =
    if_rule (All IsKeyLine) (is_zero t) (λ e. tt)
      (λ e. (
        key_line-IsKeyLine b'c' (codes "onnect_timeout") (format_signed t) refl refl
            (lacks-format_signed t),
        tt,
      ))

pub key_lines-IsKeyLine : (e : Entry) → All IsKeyLine (key_lines e)
unfolding key_lines lacks
key_lines-IsKeyLine e = (
  key_line-IsKeyLine b'b' (codes "ackend") (toml_string e.backend) refl refl
      (lacks-toml_string e.backend),
  All-append IsKeyLine (managed_line e.managed) _ (managed_line-IsKeyLine e.managed) (
    key_line-IsKeyLine b'h' (codes "ost") (toml_string e.host) refl refl (lacks-toml_string e.host),
    All-append IsKeyLine _ _
        (All-append IsKeyLine _ _
          (All-append IsKeyLine _ _
            (All-append IsKeyLine _ _ (set_line-IsKeyLine b'u' (codes "ser") e.user refl refl)
              (set_line-IsKeyLine b't' (codes "ransport") e.transport refl refl))
            (set_line-IsKeyLine b'm' (codes "osh_server") e.mosh_server refl refl))
          (set_line-IsKeyLine b'i' (codes "dentity") e.identity refl refl))
        (timeout_line-IsKeyLine e.connect_timeout),
  ),
)

letter_plain :
    (c : ℕ)
    → (leb 97 c && leb c 122) ≡ true
    → (is_space c ≡ false) × ((c == b'[') ≡ false) × ((c == b'#') ≡ false)
unfolding is_space
letter_plain c h = ground arith

-- What starts with a letter is neither a header nor blank nor a comment, whatever follows.
pub lettered :
    (c : ℕ) (s : Text)
    → (leb 97 c && leb c 122) ≡ true
    → (table_header (c ∷ s) ≡ none) × (is_loose (c ∷ s) ≡ false)
unfolding table_header trimmed_header is_loose is_blank is_comment trim_space trim_left trim_right
lettered c s h =
    let p = letter_plain c h in
    rw (p.0, trim_left) (rw (p.0, trim_right) (rw (p.1, p.2) (refl, refl)))
