-- ===== src/Cli/Mapping/RoundTrip.antt =====
-- A mapping that is written from its ports is read back.
use devvm.Prelude.{ℕ, ◌≤◌, ◌<◌, ◌^◌, ◌≡◌, refl, ◌∷◌, ◌++◌, arith}
use devvm.Text.Laws.{cut-append, cut-lacks}
use devvm.Text.Decimal.{format_nat}
use devvm.Text.Decimal.RoundTrip.{parse_int-format_nat, format_nat-lacks}
use devvm.Cli.Mapping.{mapping, split_port, mapping_of, parse_mapping}

abbrev IsPort : ℕ → Type 0
IsPort n = (1 ≤ n) × (n ≤ 65535)

port-small : (n : ℕ) → IsPort n → n < 2 ^ 63
port-small n (a, b) = omega arith

-- For ports from 1 to 65535, HOST:GUEST in decimal parses to the two, and a bare port to itself on
-- both sides.
pub parse_mapping-format :
    (h g : ℕ)
    → (1 ≤ h) × (h ≤ 65535)
    → (1 ≤ g) × (g ≤ 65535)
    → (parse_mapping (format_nat h ++ b':' ∷ format_nat g) ≡ mapping h g)
      × (parse_mapping (format_nat g) ≡ mapping g g)
unfolding parse_mapping split_port mapping_of
parse_mapping-format h g (h1, h2) (g1, g2) =
    let host = parse_int-format_nat h (port-small h (h1, h2)) in
    let guest = parse_int-format_nat g (port-small g (g1, g2)) in
    let pair = cut-append b':' (format_nat h) (format_nat g) (format_nat-lacks b':' h refl) in
    let bare = cut-lacks b':' (format_nat g) (format_nat-lacks b':' g refl) in
    (rw (pair, host, guest) (ground arith), rw (bare, guest) (ground arith))
