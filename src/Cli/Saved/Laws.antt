-- ===== src/Cli/Saved/Laws.antt =====
-- What `ports add` and `ports rm` leave in a machine's saved list.
use devvm.Prelude.{
  ℕ, Bool, true, false, ◌≡◌, inl, inr, refl, ◌∙◌, ap, List, [], ◌∷◌, Option, some, if_rule, arith,
  Option-cases, All, All-append, All-keep, ◌⊎◌, ◌++◌,
}
use devvm.Text.{Text}
use devvm.Text.Laws.{eq_text_eq}
use devvm.Config.HubName.{valid_ports_name, runtime_name}
use devvm.Config.Ports.RoundTrip.{IsLine}
use devvm.Config.Ports.Lines.{parse_ports-IsLine}
use devvm.Config.Store.{
  Files, LegacyConf, Store, Outcome, done, failed, load_ports, save_ports, read_file, parse_file,
  on_ready, migrate_ports, migrate_absent,
}
use devvm.Config.Store.Laws.{ready, load_ports-save_ports, load_ports-ready}
use devvm.Cli.Mapping.{
  mapping, parse_mapping, find_mapping_in, add_edit, unport_edit, saved_line, unport, unport_parsed,
}
use devvm.Cli.Mapping.Lines.{parse_mapping-IsLine}
use devvm.Cli.Saved.{
  Edited, same_list, saving, edit_loaded, edit_ports, add_parsed, add_port, unport_at,
  unport_loaded, run_unport,
}
use devvm.Cli.Saved.Lists.{
  ListedNowhere, IsListed, IsFirst, Without, add_edit_cases, IsFirst-found, unport_edit-Without,
}

same_list-eq : (xs bs : List Text) → same_list xs bs ≡ true → xs ≡ bs
unfolding same_list
same_list-eq [] [] h = refl
same_list-eq [] (b ∷ bs) h = absurd (cc)
same_list-eq (a ∷ xs) [] h = absurd (cc)
same_list-eq (a ∷ xs) (b ∷ bs) h =
    let head : a ≡ b = eq_text_eq a b (ground arith) in
    let tail : xs ≡ bs = same_list-eq xs bs (ground arith) in cc

add_edit-IsLine :
    (ports : List Text) (m : Text) (p g : ℕ)
    → All IsLine ports
    → IsLine m
    → All IsLine (add_edit m p g ports)
unfolding add_edit
add_edit-IsLine ports m p g h k = elim (Option-cases (find_mapping_in ports p g)) [
  | inl e ↦ rw (e, add_edit) (All-append IsLine ports (m ∷ []) h (k, tt))
  | inr (x, e) ↦ rw (e, add_edit) h
]

unport_edit-IsLine :
    (m : Text) (ports : List Text) → All IsLine ports → All IsLine (unport_edit m ports)
unfolding unport_edit
unport_edit-IsLine m ports h = All-keep IsLine _ ports h

unport-found :
    (ports : List Text) (m : Text) (p g : ℕ) {x : Text}
    → parse_mapping m ≡ mapping p g
    → find_mapping_in ports p g ≡ some x
    → unport ports m ≡ saved_line x g
unfolding unport unport_parsed
unport-found ports m p g e h = rw (e) (rw (h, unport_parsed) refl)

module _ (fails : Text → Bool) (name : Text) (fs : Files)
    (legacy : List (Text × Option LegacyConf)) where
  -- The saved list.
  abbrev pub saved_ports : List Text
  saved_ports = parse_file (read_file (runtime_name name) fs)

  -- The saved list after a command.
  abbrev pub list_after : Store × Edited → Outcome (List Text)
  list_after r = (load_ports fails name r.0).1

  loaded :
      valid_ports_name name ≡ true
      → load_ports fails name (ready fs legacy) ≡ (ready fs legacy, done saved_ports)
  unfolding load_ports on_ready migrate_ports migrate_absent
  loaded h = rw h refl

  saving-store : (r : Store × Outcome (List Text)) → (saving r).0 ≡ r.0
  unfolding saving
  saving-store (s, failed e) = refl
  saving-store (s, done p) = refl

  edit_ports-list :
      (edit : List Text → List Text)
      → valid_ports_name name ≡ true
      → fails (runtime_name name) ≡ false
      → All IsLine (edit saved_ports)
      → list_after (edit_ports fails name true true edit (ready fs legacy))
        ≡ done (edit saved_ports)
  unfolding edit_ports edit_loaded
  edit_ports-list edit h f k =
      ap (λ r. list_after (edit_loaded fails name edit r)) (loaded h)
      ∙ if_rule (λ (r : Store × Edited). list_after r ≡ done (edit saved_ports))
          (same_list saved_ports (edit saved_ports))
          (λ e.
            load_ports-ready fails name fs legacy h
            ∙ ap done (same_list-eq saved_ports (edit saved_ports) e))
          (λ e.
            ap (λ s. (load_ports fails name s).1)
              (saving-store (save_ports fails name (edit saved_ports) (ready fs legacy)))
            ∙ (load_ports-save_ports fails name (edit saved_ports) fs legacy h f k).0)

  saved_ports-IsLine : All IsLine saved_ports
  unfolding parse_file
  saved_ports-IsLine = elim (Option-cases (read_file (runtime_name name) fs)) [
    | inl e ↦ rw e tt
    | inr (t, e) ↦ rw e (parse_ports-IsLine t)
  ]

  -- Where the directory is there, the machine is not deleted meanwhile, its name is valid and the
  -- write does not fail: after `ports add` of any mapping that parses, a load returns the saved list
  -- with the mapping as its last line, the others before it as they were, where no line of it meant
  -- that mapping; and the list as it was where some line meant it, in any spelling.
  pub add_port-list :
      (m : Text) (p g : ℕ)
      → valid_ports_name name ≡ true
      → fails (runtime_name name) ≡ false
      → parse_mapping m ≡ mapping p g
      → (ListedNowhere p g saved_ports
          × (list_after (add_port fails name true true m (ready fs legacy))
              ≡ done (saved_ports ++ m ∷ [])))
        ⊎ (IsListed p g saved_ports
            × (list_after (add_port fails name true true m (ready fs legacy)) ≡ done saved_ports))
  unfolding add_port add_parsed
  add_port-list m p g h f e =
      let after : list_after (add_port fails name true true m (ready fs legacy))
          ≡ done (add_edit m p g saved_ports) =
        rw (e, add_parsed)
          (edit_ports-list (add_edit m p g) h f (
            add_edit-IsLine saved_ports m p g saved_ports-IsLine
              (parse_mapping-IsLine m {p = p} {g = g} e))) in
      elim (add_edit_cases saved_ports m p g) [
        | inl (no_line, same) ↦ inl (no_line, after ∙ ap done same)
        | inr (line, same) ↦ inr (line, after ∙ ap done same)
      ]

  -- Under the same conditions, after `ports rm` of a mapping that the saved list holds in some
  -- spelling, a load returns the list without each line spelled like the first that means the
  -- mapping: the other lines are all there, in their order.
  pub run_unport-list :
      (m : Text) (p g : ℕ) {x : Text}
      → valid_ports_name name ≡ true
      → fails (runtime_name name) ≡ false
      → parse_mapping m ≡ mapping p g
      → IsFirst p g x saved_ports
      → (left : List Text) × (list_after (run_unport fails name true true m (ready fs legacy))
          ≡ done left)
        × Without x saved_ports left
  unfolding run_unport unport_loaded
  run_unport-list m p g {x} h f e first = (
    unport_edit x saved_ports,
    ap (λ r. list_after (unport_loaded fails name true true m r)) (loaded h)
        ∙ ap (λ u. list_after (unport_at fails name true true u (ready fs legacy)))
            (unport-found saved_ports m p g e (IsFirst-found p g x saved_ports first))
        ∙ edit_ports-list (unport_edit x) h f (unport_edit-IsLine x saved_ports saved_ports-IsLine),
    unport_edit-Without x saved_ports,
  )
