-- ===== src/Config/Store/Laws.antt =====
-- What is saved for a machine is loaded for it, and for no other.
use devvm.Prelude.{
  Bool, true, false, ◌≡◌, inl, inr, refl, sym, ◌∙◌, ap, subst, List, [], ◌∷◌, Option, none, some,
  if◌then◌else◌, Bool-cases, All, ◌↔◌,
}
use devvm.Text.{Text, newline, eq_text}
use devvm.Config.HubName.{valid_ports_name, runtime_name, display_name, is_name_char, is_alnum}
use devvm.Config.HubName.RoundTrip.{valid_ports_name-lacks, display_name-runtime_name}
use devvm.Text.Laws.{eq_text_refl, eq_text_eq, eq_text_apart}
use devvm.Config.Ports.{ports_text}
use devvm.Config.Ports.RoundTrip.{IsLine, parse_ports-ports_text}
use devvm.Config.Store.{
  eq_text, Files, read_file, write_file, remove_file, LegacyConf, Store, done, on_ready,
  migrate_ports, migrate_absent, parse_file, files_of, load_ports, save_ports, removed, written,
  write_ports_file,
}

read_file-write_file :
    (n m : Text) (t : Text) (fs : Files)
    → read_file n (write_file m t fs) ≡ (if eq_text m n then some t else read_file n fs)
unfolding read_file write_file
read_file-write_file n m t [] = refl
read_file-write_file n m t ((k, u) ∷ fs) = elim (Bool-cases (eq_text k m)) [
  | inl h ↦
      let e = eq_text_eq k m h in
      elim (Bool-cases (eq_text m n)) [ inl j ↦ rw (h, e, j) refl | inr j ↦ rw (h, e, j) refl ]
  | inr h ↦ elim (Bool-cases (eq_text k n)) [
    | inl j ↦ rw (h, j, eq_text_apart k m n h j) refl
    | inr j ↦ rw (h, j) (read_file-write_file n m t fs)
  ]
]

read_file-remove_file :
    (n m : Text) (fs : Files)
    → read_file n (remove_file m fs) ≡ (if eq_text m n then none else read_file n fs)
unfolding read_file remove_file
read_file-remove_file n m [] = elim (Bool-cases (eq_text m n)) [
  | inl j ↦ rw j refl
  | inr j ↦ rw j refl
]
read_file-remove_file n m ((k, u) ∷ fs) =
    let ih = read_file-remove_file n m fs in
    elim (Bool-cases (eq_text k m)) [
      | inl h ↦
          let e = eq_text_eq k m h in
          elim (Bool-cases (eq_text m n)) [
            | inl j ↦ rw h (rw (e, j) (rw j at ih))
            | inr j ↦ rw h (rw (e, j) (rw j at ih))
          ]
      | inr h ↦ elim (Bool-cases (eq_text k n)) [
        | inl j ↦ rw h (rw (j, eq_text_apart k m n h j) refl)
        | inr j ↦ rw h (rw j ih)
      ]
    ]

abbrev pub ready : Files → List (Text × Option LegacyConf) → Store
ready fs legacy = record { dir = some fs; legacy = legacy }

newline-outside : is_name_char newline ≡ false
unfolding is_name_char is_alnum
newline-outside = refl

pub load_ports-ready :
    (fails : Text → Bool) (name : Text) (fs : Files) (legacy : List (Text × Option LegacyConf))
    → valid_ports_name name ≡ true
    → (load_ports fails name (ready fs legacy)).1
      ≡ done (parse_file (read_file (runtime_name name) fs))
unfolding load_ports on_ready migrate_ports migrate_absent
load_ports-ready fails name fs legacy h = rw h refl

abbrev with_ports : Text → List Text → Files → Files
with_ports name [] fs = remove_file (runtime_name name) fs
with_ports name (p ∷ ps) fs = write_file (runtime_name name) (ports_text name (p ∷ ps)) fs

save_ports-ready :
    (fails : Text → Bool) (name : Text) (ports : List Text) (fs : Files)
    (legacy : List (Text × Option LegacyConf))
    → valid_ports_name name ≡ true
    → fails (runtime_name name) ≡ false
    → (save_ports fails name ports (ready fs legacy)).0 ≡ ready (with_ports name ports fs) legacy
unfolding save_ports removed written write_ports_file on_ready migrate_ports migrate_absent
save_ports-ready fails name [] fs legacy h f = rw h refl
save_ports-ready fails name (p ∷ ps) fs legacy h f = rw (h, f) refl

read_file-with_ports :
    (name : Text) (ports : List Text) (fs : Files)
    → valid_ports_name name ≡ true
    → All IsLine ports
    → parse_file (read_file (runtime_name name) (with_ports name ports fs)) ≡ ports
unfolding parse_file
read_file-with_ports name [] fs h k =
    let file = runtime_name name in rw (read_file-remove_file file file fs, eq_text_refl file) refl
read_file-with_ports name (p ∷ ps) fs h k =
    let file = runtime_name name in
    rw (read_file-write_file file file (ports_text name (p ∷ ps)) fs, eq_text_refl file)
      (parse_ports-ports_text name (p ∷ ps)
        (valid_ports_name-lacks newline name newline-outside refl h) k)

-- The file of another name.
read_file-with_ports_other :
    (n name : Text) (ports : List Text) (fs : Files)
    → eq_text (runtime_name name) n ≡ false
    → read_file n (with_ports name ports fs) ≡ read_file n fs
read_file-with_ports_other n name [] fs h =
    read_file-remove_file n (runtime_name name) fs ∙ rw h refl
read_file-with_ports_other n name (p ∷ ps) fs h =
    read_file-write_file n (runtime_name name) (ports_text name (p ∷ ps)) fs ∙ rw h refl

-- Different machines have different files.
runtime_name-apart :
    (name other : Text)
    → valid_ports_name name ≡ true
    → valid_ports_name other ≡ true
    → eq_text name other ≡ false
    → eq_text (runtime_name name) (runtime_name other) ≡ false
runtime_name-apart name other h o n =
    elim (Bool-cases (eq_text (runtime_name name) (runtime_name other))) [
      | inr e ↦ e
      | inl e ↦
          let same = eq_text_eq (runtime_name name) (runtime_name other) e in
          let names : name ≡ other =
            sym (display_name-runtime_name name h)
            ∙ ap display_name same
            ∙ display_name-runtime_name other o in
          let bad = subst (λ y. eq_text name y ≡ true) names (eq_text_refl name) in absurd (cc)
    ]

-- The text of a machine's file, where there is one.
abbrev pub file_of : Text → Store → Option Text
file_of name s = read_file (runtime_name name) (files_of s.dir)

with_ports-file :
    (name : Text) (ports : List Text) (fs : Files)
    → (ports ≡ []) ↔ (read_file (runtime_name name) (with_ports name ports fs) ≡ none)
with_ports-file name [] fs =
    let file = runtime_name name in
    ((λ e. rw (read_file-remove_file file file fs, eq_text_refl file) refl), (λ e. refl))
with_ports-file name (p ∷ ps) fs =
    let file = runtime_name name in
    let there : read_file file (with_ports name (p ∷ ps) fs) ≡ some (ports_text name (p ∷ ps)) =
      rw (read_file-write_file file file (ports_text name (p ∷ ps)) fs, eq_text_refl file) refl in
    ((λ e. absurd (cc)), (λ e. absurd (cc)))

-- Where the directory is there and the write does not fail, the list that is saved for a machine
-- with a valid name is what a load of it then returns, where each mapping is a line of the file as
-- it stands; and the machine has a file afterwards exactly if the list is not empty.
pub load_ports-save_ports :
    (fails : Text → Bool) (name : Text) (ports : List Text) (fs : Files)
    (legacy : List (Text × Option LegacyConf))
    → valid_ports_name name ≡ true
    → fails (runtime_name name) ≡ false
    → All IsLine ports
    → let s = (save_ports fails name ports (ready fs legacy)).0 in
      ((load_ports fails name s).1 ≡ done ports) × ((ports ≡ []) ↔ (file_of name s ≡ none))
load_ports-save_ports fails name ports fs legacy h f k =
    let file = runtime_name name in
    let saved = save_ports-ready fails name ports fs legacy h f in
    (
      ap (λ (s : Store). (load_ports fails name s).1) saved
          ∙ load_ports-ready fails name (with_ports name ports fs) legacy h
          ∙ ap done (read_file-with_ports name ports fs h k),
      rw saved (with_ports-file name ports fs),
    )

-- Where the directory is there and the write does not fail, a save for one machine changes no other
-- machine's list, the two names being valid.
pub load_ports-save_ports_other :
    (fails : Text → Bool) (name other : Text) (ports : List Text) (fs : Files)
    (legacy : List (Text × Option LegacyConf))
    → valid_ports_name name ≡ true
    → valid_ports_name other ≡ true
    → fails (runtime_name name) ≡ false
    → eq_text name other ≡ false
    → (load_ports fails other (save_ports fails name ports (ready fs legacy)).0).1
      ≡ (load_ports fails other (ready fs legacy)).1
load_ports-save_ports_other fails name other ports fs legacy h o f n =
    let apart = runtime_name-apart name other h o n in
    let file = runtime_name other in
    ap (λ (s : Store). (load_ports fails other s).1)
      (save_ports-ready fails name ports fs legacy h f)
    ∙ load_ports-ready fails other (with_ports name ports fs) legacy o
    ∙ ap (λ x. done (parse_file x)) (read_file-with_ports_other file name ports fs apart)
    ∙ sym (load_ports-ready fails other fs legacy o)
