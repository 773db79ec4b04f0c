-- ===== src/Config/Ports/Lines.antt =====
-- What is read of a saved-forwards file can be written to one again.
use devvm.Prelude.{
  ℕ, true, false, ◌&&◌, ◌≡◌, refl, [], ◌∷◌, List, ◌==◌, if_rule, arith, All, is_empty,
}
use devvm.Text.{
  Text, lacks, newline, split_lines, prepend, trim_left, trim_right, trim_space, is_space,
}
use devvm.Text.Trim.{trim_space_twice}
use devvm.Config.Ports.{skipped, parse_lines, parse_ports}
use devvm.Config.Ports.RoundTrip.{IsLine}

abbrev Whole : Text → Type 0
Whole s = lacks newline s ≡ true

trim_left-Whole : (s : Text) → Whole s → Whole (trim_left s)
unfolding trim_left lacks
trim_left-Whole [] h = h
trim_left-Whole (c ∷ s) h =
    if_rule Whole (is_space c) (λ e. trim_left-Whole s (ground arith)) (λ e. h)

cons-Whole : (c : ℕ) (s t : Text) → Whole (c ∷ s) → Whole t → Whole (c ∷ t)
unfolding lacks
cons-Whole c s t h k = ground arith

tail-Whole : (c : ℕ) (s : Text) → Whole (c ∷ s) → Whole s
unfolding lacks
tail-Whole c s h = ground arith

nil-Whole : Whole []
unfolding lacks
nil-Whole = refl

trim_right-Whole : (s : Text) → Whole s → Whole (trim_right s)
unfolding trim_right
trim_right-Whole [] h = h
trim_right-Whole (c ∷ s) h =
    let rest = trim_right-Whole s (tail-Whole c s h) in
    if_rule Whole (is_space c && is_empty (trim_right s)) (λ e. nil-Whole)
      (λ e. cons-Whole c s (trim_right s) h rest)

prepend-Whole :
    (c : ℕ) (ls : List Text) → (c == newline) ≡ false → All Whole ls → All Whole (prepend c ls)
unfolding lacks
prepend-Whole c [] e h = (rw e refl, tt)
prepend-Whole c (l ∷ ls) e h = (rw e h.0, h.1)

split_lines-Whole : (s : Text) → All Whole (split_lines s)
unfolding split_lines
split_lines-Whole [] = (nil-Whole, tt)
split_lines-Whole (c ∷ s) =
    let rest = split_lines-Whole s in
    if_rule (All Whole) (c == newline) (λ e. (nil-Whole, rest))
      (λ e. prepend-Whole c (split_lines s) e rest)

trim_space-Whole : (s : Text) → Whole s → Whole (trim_space s)
unfolding trim_space
trim_space-Whole s h = trim_right-Whole (trim_left s) (trim_left-Whole s h)

parse_lines-IsLine : (ls : List Text) → All Whole ls → All IsLine (parse_lines ls)
unfolding parse_lines
parse_lines-IsLine [] h = tt
parse_lines-IsLine (l ∷ ls) h =
    let rest = parse_lines-IsLine ls h.1 in
    if_rule (All IsLine) (skipped (trim_space l)) (λ e. rest)
      (λ e. ((trim_space-Whole l h.0, trim_space_twice l, e), rest))

pub parse_ports-IsLine : (s : Text) → All IsLine (parse_ports s)
unfolding parse_ports
parse_ports-IsLine s = parse_lines-IsLine (split_lines s) (split_lines-Whole s)
