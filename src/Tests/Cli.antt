-- ===== src/Tests/Cli.antt =====
-- Mappings as they are typed, and a saved list that two commands edit.
use devvm.Prelude.{◌⊎◌, inl, ◌++◌, true, false, Bool, ◌≡◌, refl, List, [], ◌∷◌, some}
use devvm.Text.{Text, codes, cut, eq_text, lacks, trim_space, split_lines}
use devvm.Text.Decimal.{parse_int}
use devvm.Config.HubName.{
  valid_ports_name, valid_split, split_hub_name, check_parts, valid_name, all_name_chars,
  is_name_char, is_alnum, runtime_name,
}
use devvm.Config.Ports.{parse_ports}
use devvm.Config.Store.{parse_file, Files, done, read_file}
use devvm.Config.Store.Laws.{ready}
use devvm.Cli.Mapping.{mapping, not_numeric, out_of_range, parse_mapping, find_mapping_in, add_edit}
use devvm.Cli.Mapping.Edits.{find-add_edit}
use devvm.Cli.Saved.{add_port, run_unport}
use devvm.Cli.Saved.Lists.{ListedNowhere, IsListed, IsFirst, Without}
use devvm.Cli.Saved.Laws.{saved_ports, list_after, add_port-list, run_unport-list}

typed : parse_mapping (codes "8080:3000") ≡ mapping 8080 3000
unfolding parse_mapping parse_int cut
typed = refl

port_zero : parse_mapping (codes "0:3000") ≡ out_of_range
unfolding parse_mapping parse_int cut
port_zero = refl

no_number : parse_mapping (codes "80:web") ≡ not_numeric
unfolding parse_mapping parse_int cut
no_number = refl

abbrev two : List Text
two = codes "3000" ∷ codes "8080:3000" ∷ []

find-add_edit_example :
    ((x : Text) × (find_mapping_in (add_edit (codes "9000") 9000 9000 two) 9000 9000 ≡ some x))
    × (add_edit (codes "9000:9000") 9000 9000 (add_edit (codes "9000") 9000 9000 two)
        ≡ add_edit (codes "9000") 9000 9000 two)
unfolding parse_mapping parse_int cut
find-add_edit_example = find-add_edit two (codes "9000") (codes "9000:9000") 9000 9000 refl

abbrev writes : Text → Bool
writes file = false

abbrev files : Files
files = (codes "web", codes "# saved\n3000\n8080:3000\n") ∷ []

web-valid : valid_ports_name (codes "web") ≡ true
unfolding valid_ports_name valid_split split_hub_name check_parts cut valid_name all_name_chars
    is_name_char is_alnum
web-valid = refl

abbrev saved_files : List Text
saved_files = saved_ports writes (codes "web") files []

found : IsFirst 3000 3000 (codes "3000") saved_files
unfolding parse_mapping parse_int cut parse_file read_file runtime_name parse_ports split_lines
    trim_space eq_text split_hub_name
found = inl (refl, refl)

add_port-list_example :
    let after =
      list_after writes
        (codes "web")
        files
        []
        (add_port writes (codes "web") true true (codes "9000") (ready files [])) in
    (ListedNowhere 9000 9000 saved_files × (after ≡ done (saved_files ++ codes "9000" ∷ [])))
    ⊎ (IsListed 9000 9000 saved_files × (after ≡ done saved_files))
unfolding parse_mapping parse_int cut lacks trim_space
add_port-list_example =
    add_port-list writes (codes "web") files [] (codes "9000") 9000 9000 web-valid refl refl

run_unport-list_example :
    (left : List Text) × (list_after writes
        (codes "web")
        files
        []
        (run_unport writes (codes "web") true true (codes "3000:3000") (ready files []))
      ≡ done left)
    × Without (codes "3000") saved_files left
unfolding parse_mapping parse_int cut
run_unport-list_example =
    run_unport-list writes (codes "web") files [] (codes "3000:3000") 3000 3000 {x = codes "3000"}
      web-valid refl refl found
