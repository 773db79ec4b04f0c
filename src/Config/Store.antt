-- ===== src/Config/Store.antt =====
-- internal/config/ports.go: the files of saved forwards under <State>/ports, and their one-time
-- migration from the old confs. The state is what the functions read and write: whether the
-- directory exists, its files by name in the order a listing gives them, and the old confs. Each
-- call runs alone, as under `LockPorts` and the migration's lock. What the operating system may
-- refuse is an argument: `fails` says of each file's name whether writing it fails.
pub mod Laws
use devvm.Prelude.{
  ℕ, Bool, true, false, not, ◌&&◌, ◌||◌, List, [], ◌∷◌, ◌++◌, Option, none, some, ◌==◌,
  if◌then◌else◌, is_empty, keep,
}
use devvm.Text.{Text, eq_text}
use devvm.Config.HubName.{valid_name, valid_ports_name, runtime_name, display_name, join_hub_name}
use devvm.Config.Ports.{parse_ports, ports_text}

-- A directory's files.
abbrev pub Files : Type 0
Files = List (Text × Text)

unfoldable pub read_file : Text → Files → Option Text
unfolding eq_text
read_file n [] = none
read_file n ((m, t) ∷ fs) = if eq_text m n then some t else read_file n fs

unfoldable pub write_file : Text → Text → Files → Files
unfolding eq_text
write_file n t [] = (n, t) ∷ []
write_file n t ((m, u) ∷ fs) = if eq_text m n then (m, t) ∷ fs else (m, u) ∷ write_file n t fs

unfoldable pub remove_file : Text → Files → Files
unfolding eq_text
remove_file n fs = keep (λ (f : Text × Text). not (eq_text f.0 n)) fs

-- `legacyConf`: whether the backend is a hub, the ports, and the tables by machine.
pub record LegacyConf : Type 0 where
  pub is_hub : Bool
  pub ports : List Text
  pub machines : List (Text × List Text)

-- `dir` is none until a migration has finished; `legacy` are the confs by name (`legacyConfNames`),
-- with none for one that does not parse.
pub record Store : Type 0 where
  pub dir : Option Files
  pub legacy : List (Text × Option LegacyConf)

pub data StoreErr : Type 0 where
  bad_name : StoreErr
  unparsed : Text → StoreErr
  not_written : Text → StoreErr

-- A step that may fail, with the files so far.
pub data Outcome {ℓ} (A : Type ℓ) : Type ℓ where
  done : A → Outcome A
  failed : StoreErr → Outcome A

unfoldable pub then_do {ℓ κ} : {A : Type ℓ} {B : Type κ} → Outcome A → (A → Outcome B) → Outcome B
then_do (failed e) k = failed e
then_do (done a) k = k a

-- `writePortsFile`.
unfoldable pub write_ports_file : (Text → Bool) → Text → Text → List Text → Files → Outcome Files
unfolding write_file
write_ports_file fails file display ports fs =
    if fails file
    then failed (not_written file)
    else done (write_file file (ports_text display ports) fs)

-- The tables of a hub's conf.
unfoldable pub migrate_machines :
    (Text → Bool) → Text → List (Text × List Text) → Files → Outcome Files
unfolding write_ports_file then_do
migrate_machines fails hub [] fs = done fs
migrate_machines fails hub ((m, ports) ∷ ms) fs =
    if is_empty ports || not (valid_name m)
    then migrate_machines fails hub ms fs
    else then_do
        (write_ports_file fails (runtime_name (join_hub_name hub m)) (join_hub_name hub m) ports fs)
        (migrate_machines fails hub ms)

-- One old conf.
unfoldable pub migrate_conf : (Text → Bool) → Text → Option LegacyConf → Files → Outcome Files
unfolding migrate_machines write_ports_file
migrate_conf fails n none fs = failed (unparsed n)
migrate_conf fails n (some c) fs =
    if c.is_hub
    then migrate_machines fails n c.machines fs
    else if is_empty c.ports
    then done fs
    else write_ports_file fails n n c.ports fs

unfoldable pub migrate_confs :
    (Text → Bool) → List (Text × Option LegacyConf) → Files → Outcome Files
unfolding migrate_conf then_do
migrate_confs fails [] fs = done fs
migrate_confs fails ((n, c) ∷ cs) fs = then_do (migrate_conf fails n c fs) (migrate_confs fails cs)

-- `MigratePorts`: the state after it, and the error. The files are made beside the directory and
-- put in place at the end.
unfoldable pub migrated : Store → Outcome Files → Store × Option StoreErr
migrated s (failed e) = (s, some e)
migrated s (done fs) = (record s { dir = some fs }, none)

unfoldable pub migrate_absent : (Text → Bool) → Option Files → Store → Store × Option StoreErr
unfolding migrated migrate_confs
migrate_absent fails (some fs) s = (s, none)
migrate_absent fails none s = migrated s (migrate_confs fails s.legacy [])

unfoldable pub migrate_ports : (Text → Bool) → Store → Store × Option StoreErr
unfolding migrate_absent
migrate_ports fails s = migrate_absent fails s.dir s

-- What the entry points share: the name's check, the migration, and then the work on the files.
abbrev files_of : Option Files → Files
files_of none = []
files_of (some fs) = fs

unfoldable pub on_ready {ℓ} :
    {A : Type ℓ}
    → (Text → Bool)
    → Text
    → (Store → Files → Store × Outcome A)
    → Store
    → Store × Outcome A
unfolding migrate_ports
on_ready fails name k s =
    let r = migrate_ports fails s in
    if not (valid_ports_name name)
    then (s, failed bad_name)
    else elim r.1 [ some e ↦ (r.0, failed e) | none ↦ k r.0 (files_of (r.0).dir) ]

unfoldable pub parse_file : Option Text → List Text
parse_file none = []
parse_file (some t) = parse_ports t

-- `LoadPorts`.
unfoldable pub load_ports : (Text → Bool) → Text → Store → Store × Outcome (List Text)
unfolding on_ready parse_file read_file
load_ports fails name =
    on_ready fails name (λ s fs. (s, done (parse_file (read_file (runtime_name name) fs))))

unfoldable pub removed : Text → Store → Files → Store × Outcome (List Text)
unfolding remove_file
removed name s fs = (record s { dir = some (remove_file (runtime_name name) fs) }, done [])

unfoldable pub written : Store → List Text → Outcome Files → Store × Outcome (List Text)
written s ports (failed e) = (s, failed e)
written s ports (done fs) = (record s { dir = some fs }, done ports)

-- `SavePorts`: no forwards, no file. What it returns besides an error is the list that is saved.
unfoldable pub save_ports : (Text → Bool) → Text → List Text → Store → Store × Outcome (List Text)
unfolding on_ready removed written write_ports_file
save_ports fails name ports = on_ready fails name (λ s fs.
    if is_empty ports
    then removed name s fs
    else written s ports (write_ports_file fails (runtime_name name) name ports fs))

-- `RemovePorts`.
unfoldable pub remove_ports : (Text → Bool) → Text → Store → Store × Outcome (List Text)
unfolding on_ready removed
remove_ports fails name = on_ready fails name (removed name)

-- `SavedPortsNames`, of the directory's files: none for lock files and what is no machine's.
abbrev is_hidden : Text → Bool
is_hidden [] = false
is_hidden (c ∷ s) = c == 46

unfoldable pub saved_names : Files → List Text
saved_names [] = []
saved_names ((n, t) ∷ fs) =
    let rest = saved_names fs in
    if is_hidden n || not (valid_ports_name (display_name n)) then rest else display_name n ∷ rest
