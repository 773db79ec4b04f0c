-- ===== src/Config/Edit/Named/Bare.antt =====
-- Bare keys, as `splitKey` and `closingBracket` of internal/config/edit.go read them.
use devvm.Prelude.{ℕ, true, false, ◌≡◌, refl, ap, [], ◌∷◌, ◌++◌, arith, ◌==◌}
use devvm.Text.{Text, lacks, newline, is_space, trim_right}
use devvm.Config.HubName.{is_alnum}
use devvm.Config.Edit.{is_bare_char, all_bare}
use devvm.Config.Edit.Header.{closing_bracket, outside, push}
use devvm.Config.Edit.Quotable.{pushes}

pub bare_char_plain :
    (c : ℕ)
    → is_bare_char c ≡ true
    → (is_space c ≡ false)
      × ((c == b'.') ≡ false)
      × ((c == b']') ≡ false)
      × ((c == b'"') ≡ false)
      × ((c == b'\'') ≡ false)
      × ((c == newline) ≡ false)
unfolding is_bare_char is_alnum is_space
bare_char_plain c h = ground arith

pub trim_right-bare : (c : ℕ) (s : Text) → all_bare (c ∷ s) ≡ true → trim_right (c ∷ s) ≡ c ∷ s
unfolding all_bare trim_right
trim_right-bare c [] h = let p = bare_char_plain c (ground arith) in rw p.0 refl
trim_right-bare c (d ∷ s) h =
    let p = bare_char_plain c (ground arith) in
    let rest = trim_right-bare d s (ground arith) in rw (p.0, trim_right) (ground (arith, rest))

pub lacks-bare : (s : Text) → all_bare s ≡ true → (lacks b'.' s ≡ true) × (lacks newline s ≡ true)
unfolding all_bare lacks
lacks-bare [] h = (refl, refl)
lacks-bare (c ∷ s) h =
    let p = bare_char_plain c (ground arith) in ground (arith, lacks-bare s (ground arith))

pub closing_bracket-bare :
    (s t : Text)
    → all_bare s ≡ true
    → closing_bracket outside (s ++ t) ≡ pushes s (closing_bracket outside t)
unfolding all_bare closing_bracket
closing_bracket-bare [] t h = refl
closing_bracket-bare (c ∷ s) t h =
    let p = bare_char_plain c (ground arith) in
    rw (p.2, p.3, p.4) (ap (push c) (closing_bracket-bare s t (ground arith)))
