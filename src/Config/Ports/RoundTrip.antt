-- ===== src/Config/Ports/RoundTrip.antt =====
-- What is written to a saved-forwards file is read back.
use devvm.Prelude.{true, false, ◌≡◌, refl, ◌∙◌, ap, List, [], ◌∷◌, ◌++◌, if◌then◌else◌, All}
use devvm.Text.{Text, is_space, lacks, newline, split_lines, trim_left, trim_right, trim_space}
use devvm.Text.Laws.{lacks-append, split_lines-append}
use devvm.Config.Ports.{
  hash, skipped, parse_lines, parse_ports, before_name, after_name, port_lines, ports_text,
}

-- A mapping as the file can hold it: no line end, no spaces around it, not empty and no comment.
abbrev pub IsLine : Text → Type 0
IsLine p = (lacks newline p ≡ true) × (trim_space p ≡ p) × (skipped p ≡ false)

parse_lines-cons :
    (l : Text) (ls : List Text)
    → parse_lines (l ∷ ls)
      ≡ (if skipped (trim_space l) then parse_lines ls else trim_space l ∷ parse_lines ls)
unfolding parse_lines
parse_lines-cons l ls = refl

parse_ports-append :
    (a b : Text)
    → lacks newline a ≡ true
    → parse_ports (a ++ newline ∷ b)
      ≡ (if skipped (trim_space a) then parse_ports b else trim_space a ∷ parse_ports b)
unfolding parse_ports
parse_ports-append a b h = rw (split_lines-append a b h) (parse_lines-cons a (split_lines b))

parse_ports-nil : parse_ports [] ≡ []
unfolding parse_ports parse_lines split_lines trim_space trim_left trim_right
parse_ports-nil = refl

parse_ports-port_lines : (ps : List Text) → All IsLine ps → parse_ports (port_lines ps) ≡ ps
unfolding port_lines
parse_ports-port_lines [] h = parse_ports-nil
parse_ports-port_lines (p ∷ ps) ((line, trimmed, kept), h) =
    rw (parse_ports-append p (port_lines ps) line, trimmed, kept)
      (ap (λ x. p ∷ x) (parse_ports-port_lines ps h))

skipped-trim_hash : (s : Text) → skipped (trim_space (hash ∷ s)) ≡ true
unfolding trim_space trim_left trim_right is_space
skipped-trim_hash s = refl

lacks-head :
    (display : Text)
    → lacks newline display ≡ true
    → lacks newline (hash ∷ (before_name ++ (display ++ after_name))) ≡ true
unfolding lacks
lacks-head display h = lacks-append newline display after_name h refl

-- The saved-forwards file that is written for a list of mappings parses to that list, where the
-- display name has no line end and each mapping is a line of the file as it stands: not empty, no
-- comment, without a line end and without spaces around it.
pub parse_ports-ports_text :
    (display : Text) (ports : List Text)
    → lacks newline display ≡ true
    → All IsLine ports
    → parse_ports (ports_text display ports) ≡ ports
unfolding ports_text
parse_ports-ports_text display ports h k =
    let head : Text = before_name ++ (display ++ after_name) in
    parse_ports-append (hash ∷ head) (port_lines ports) (lacks-head display h)
    ∙ rw (skipped-trim_hash head) (parse_ports-port_lines ports k)
