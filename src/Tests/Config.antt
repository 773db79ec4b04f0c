-- ===== src/Tests/Config.antt =====
-- The theorems on names and saved forwards at concrete texts.
use devvm.Prelude.{none, ◌↔◌, Bool, false, ◌≡◌, refl, List, [], ◌∷◌}
use devvm.Text.{codes, eq_text, Text, cut, is_space, lacks, trim_left, trim_right, trim_space}
use devvm.Config.HubName.{
  is_alnum, is_name_char, all_name_chars, valid_name, check_parts, split_hub_name, runtime_name,
  display_name, valid_split, valid_ports_name,
}
use devvm.Config.HubName.RoundTrip.{display_name-runtime_name}
use devvm.Config.Ports.{parse_ports, ports_text}
use devvm.Config.Ports.RoundTrip.{parse_ports-ports_text}
use devvm.Config.Store.{done, load_ports, save_ports}
use devvm.Config.Store.Laws.{file_of, ready, load_ports-save_ports, load_ports-save_ports_other}

-- The names `a`, `web` and `a/web`.
abbrev hub_a : Text
hub_a = codes "a"

abbrev web : Text
web = codes "web"

abbrev a_web : Text
a_web = codes "a/web"

-- The mappings `80` and `90:8`.
abbrev two_ports : List Text
two_ports = codes "80" ∷ codes "90:8" ∷ []

abbrev all_written : Text → Bool
all_written file = false

display_name-runtime_name_example : display_name (runtime_name a_web) ≡ a_web
unfolding valid_ports_name valid_split split_hub_name check_parts cut valid_name all_name_chars
    is_name_char is_alnum
display_name-runtime_name_example = display_name-runtime_name a_web refl

parse_ports-ports_text_example : parse_ports (ports_text web two_ports) ≡ two_ports
unfolding lacks trim_space trim_left trim_right is_space
parse_ports-ports_text_example =
    parse_ports-ports_text web two_ports refl ((refl, refl, refl), ((refl, refl, refl), tt))

load_ports-save_ports_example :
    let s = (save_ports all_written a_web two_ports (ready [] [])).0 in
    ((load_ports all_written a_web s).1 ≡ done two_ports)
    × ((two_ports ≡ []) ↔ (file_of a_web s ≡ none))
unfolding valid_ports_name valid_split split_hub_name check_parts cut valid_name all_name_chars
    is_name_char is_alnum lacks trim_space trim_left trim_right is_space
load_ports-save_ports_example =
    load_ports-save_ports all_written a_web two_ports [] [] refl refl
      ((refl, refl, refl), ((refl, refl, refl), tt))

load_ports-save_ports_other_example :
    (load_ports all_written web (save_ports all_written a_web two_ports (ready [] [])).0).1
    ≡ (load_ports all_written web (ready [] [])).1
unfolding valid_ports_name valid_split split_hub_name check_parts cut valid_name all_name_chars
    is_name_char is_alnum eq_text
load_ports-save_ports_other_example =
    load_ports-save_ports_other all_written a_web web two_ports [] [] refl refl refl refl
