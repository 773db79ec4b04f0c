-- ===== src/Agent/Clock/Line.antt =====
-- internal/agentrpc/clock.go: how a line comes through the bound of its bytes.
use devvm.Prelude.{
  ℕ, zero, suc, ◌+◌, ◌-◌, ◌≤◌, true, false, ◌≡◌, refl, ◌∙◌, ap, [], ◌∷◌, ◌++◌, arith, ◌==◌, leb,
}
use devvm.Text.{Text, newline, lacks, is_space, trim_right}
use devvm.Agent.Clock.{byte_width, byte_length, cut_bytes, limited, read_line, header_line}

limited-append :
    (n : ℕ) (s t : Text)
    → byte_length s ≤ n
    → limited n (s ++ t) ≡ s ++ limited (n - byte_length s) t
unfolding limited byte_length
limited-append n [] t h = ap (λ (k : ℕ). limited k t) (omega arith)
limited-append n (c ∷ s) t h =
    let ih = limited-append (n - byte_width c) s t (omega arith) in
    let fits : leb (byte_width c) n ≡ true = ground arith in
    let left : n - byte_width c - byte_length s ≡ n - (byte_width c + byte_length s) =
      omega arith in
    rw fits (ap (λ (r : Text). c ∷ r) (ih ∙ ap (λ (k : ℕ). s ++ limited k t) left))

read_line-append : (s t : Text) → lacks newline s ≡ true → read_line (s ++ t) ≡ s ++ read_line t
unfolding read_line lacks
read_line-append [] t h = refl
read_line-append (c ∷ s) t h =
    let apart : (c == newline) ≡ false = ground arith in
    rw apart (ap (λ (r : Text). c ∷ r) (read_line-append s t (ground arith)))

-- What is left of the line's end behind a line that fits.
end_limited : (k : ℕ) → trim_right (read_line (limited k (newline ∷ []))) ≡ []
unfolding limited byte_width cut_bytes read_line trim_right is_space
end_limited zero = refl
end_limited (suc k) = ground arith

-- A line within the bound is read whole, but perhaps for its end.
pub read_line-limited :
    (n : ℕ) (s : Text)
    → lacks newline s ≡ true
    → byte_length s ≤ n
    → (e : Text) × (trim_right e ≡ []) × (read_line (limited n (header_line s)) ≡ s ++ e)
read_line-limited n s h k =
    let rest = limited (n - byte_length s) (newline ∷ []) in
    (
      read_line rest,
      end_limited (n - byte_length s),
      ap read_line (limited-append n s (newline ∷ []) k) ∙ read_line-append s rest h,
    )
