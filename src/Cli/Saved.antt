-- ===== src/Cli/Saved.antt =====
-- internal/cli/forwards.go and hubforwards.go: the saved half of `ports add` and `ports rm`, over the
-- directory of saved forwards. `registered` and `still` are the two answers of `stillThere`, before
-- and after the lock is taken; what runs between them may delete the machine. Taking the lock does
-- not fail here; an add is not --ephemeral, which saves nothing.
pub mod Lists
pub mod Laws
use devvm.Prelude.{Bool, true, false, not, ◌&&◌, List, [], ◌∷◌, ℕ, if◌then◌else◌}
use devvm.Text.{Text, eq_text}
use devvm.Config.Store.{Store, Outcome, StoreErr, done, failed, load_ports, save_ports}
use devvm.Cli.Mapping.{
  Mapping, mapping, not_numeric, out_of_range, parse_mapping, add_edit, unport_edit, Unport,
  saved_line, unsaved_guest, not_configured, unport,
}

pub data EditErr : Type 0 where
  deleted : EditErr
  store_failed : StoreErr → EditErr
  bad_mapping : EditErr
  port_outside : EditErr
  no_such_forward : EditErr

-- `unsaved`: `ports rm` goes on to the live forward of that guest port, and the saved list stays.
pub data Edited : Type 0 where
  refused : EditErr → Edited
  saved : List Text → Edited
  unsaved : ℕ → Edited

-- `slices.Equal`.
unfoldable pub same_list : List Text → List Text → Bool
unfolding eq_text
same_list [] [] = true
same_list [] (b ∷ bs) = false
same_list (a ∷ xs) [] = false
same_list (a ∷ xs) (b ∷ bs) = eq_text a b && same_list xs bs

unfoldable pub saving : Store × Outcome (List Text) → Store × Edited
saving (s, failed e) = (s, refused (store_failed e))
saving (s, done ports) = (s, saved ports)

-- `editPorts`, from the list that is read on.
unfoldable pub edit_loaded :
    (Text → Bool) → Text → (List Text → List Text) → Store × Outcome (List Text) → Store × Edited
unfolding saving save_ports same_list
edit_loaded fails name edit (s, failed e) = (s, refused (store_failed e))
edit_loaded fails name edit (s, done before) =
    if same_list before (edit before)
    then (s, saved before)
    else saving (save_ports fails name (edit before) s)

-- `editPorts`.
unfoldable pub edit_ports :
    (Text → Bool) → Text → Bool → Bool → (List Text → List Text) → Store → Store × Edited
unfolding edit_loaded load_ports
edit_ports fails name registered still edit s =
    if registered && not still
    then (s, refused deleted)
    else edit_loaded fails name edit (load_ports fails name s)

-- The saved half of `addPort`.
unfoldable pub add_parsed :
    (Text → Bool) → Text → Bool → Bool → Text → Mapping → Store → Store × Edited
unfolding edit_ports add_edit
add_parsed fails name registered still m (mapping p g) s =
    edit_ports fails name registered still (add_edit m p g) s
add_parsed fails name registered still m not_numeric s = (s, refused bad_mapping)
add_parsed fails name registered still m out_of_range s = (s, refused port_outside)

unfoldable pub add_port : (Text → Bool) → Text → Bool → Bool → Text → Store → Store × Edited
unfolding add_parsed parse_mapping
add_port fails name registered still m s =
    add_parsed fails name registered still m (parse_mapping m) s

-- The saved half of `runUnport`: the mapping is looked up before the lock, in a read of its own.
unfoldable pub unport_at : (Text → Bool) → Text → Bool → Bool → Unport → Store → Store × Edited
unfolding edit_ports unport_edit
unport_at fails name registered still (saved_line configured g) s =
    edit_ports fails name registered still (unport_edit configured) s
unport_at fails name registered still (unsaved_guest g) s = (s, unsaved g)
unport_at fails name registered still not_configured s = (s, refused no_such_forward)

unfoldable pub unport_loaded :
    (Text → Bool) → Text → Bool → Bool → Text → Store × Outcome (List Text) → Store × Edited
unfolding unport_at unport
unport_loaded fails name registered still m (s, failed e) = (s, refused (store_failed e))
unport_loaded fails name registered still m (s, done ports) =
    unport_at fails name registered still (unport ports m) s

unfoldable pub run_unport : (Text → Bool) → Text → Bool → Bool → Text → Store → Store × Edited
unfolding unport_loaded load_ports
run_unport fails name registered still m s =
    unport_loaded fails name registered still m (load_ports fails name s)
