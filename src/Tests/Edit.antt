-- ===== src/Tests/Edit.antt =====
-- Runs of the edits of devvm.toml.
use devvm.Prelude.{
  true, false, ◌≡◌, refl, [], ◌∷◌, ◌++◌, Option, none, some, arith, if◌then◌else◌, All,
}
use devvm.Text.{Text, codes, newline, eq_text}
use devvm.Config.Templates.{pos, no_spec}
use devvm.Config.Entry.{Entry, Machine}
use devvm.Config.Entry.Safe.{all_ip_chars}
use devvm.Config.File.{RawFile, File, NameTable, Parsed, parsed, malformed, parse_file}
use devvm.Config.File.Users.{IsLoaded, parse_file-IsLoaded}
use devvm.Config.Edit.Header.{key_of, split_rounds, split_key}
use devvm.Config.Edit.Rounds.{IsEnded, split_rounds-split_key}
use devvm.Config.Edit.Cut.{split_after, split_tail, is_blank, names_machine}
use devvm.Config.Edit.{ended}
use devvm.Config.Edit.Undone.{LacksTable, cut_table-appended}
use devvm.Config.Edit.Plan.{content, ok, failed, changed_meanwhile, remove_entry}
use devvm.Config.Edit.Plan.Safe.{Removed, remove_entry-Removed}
use devvm.Config.Edit.Plan.Added.{Added}
use devvm.Config.Edit.{appended}
use devvm.Config.Edit.Header.{table_header}
use devvm.Config.Edit.Cut.{cut_table}

abbrev edit_line : Text → Text
edit_line s = s ++ newline ∷ []

abbrev mac : Entry
mac = record {
  backend = codes "remote";
  managed = some false;
  host = codes "mac.local:2222";
  user = codes "ann";
  transport = [];
  mosh_server = [];
  identity = codes "~/.ssh/a\"b";
  connect_timeout = pos 7;
}

abbrev own_file : Text
own_file =
    edit_line (codes "# mine")
    ++ edit_line (codes "[machines.web]")
    ++ edit_line (codes "backend = \"remote\"")
    ++ edit_line (codes "host = \"h\"")
    ++ edit_line (codes "# glued")
    ++ edit_line []
    ++ edit_line (codes "# of mac")
    ++ edit_line (codes " [ machines . \"mac.local\" ] # here")
    ++ edit_line (codes "backend = \"hub\"")
    ++ edit_line (codes "host = \"k\"")

cut_web :
    cut_table own_file (codes "web")
    ≡ some (
        edit_line (codes "# mine")
        ++ edit_line (codes "# of mac")
        ++ edit_line (codes " [ machines . \"mac.local\" ] # here")
        ++ edit_line (codes "backend = \"hub\"")
        ++ edit_line (codes "host = \"k\""))
unfolding cut_table
cut_web = refl

cut_appended : cut_table (appended own_file (codes "b.c") mac) (codes "b.c") ≡ some own_file
unfolding cut_table appended
cut_appended = refl

quoted_header :
    table_header (codes "[[ 'a]b'.\"c\\u0041\\x42\\\"\" ]] #")
    ≡ some (codes "a]b" ∷ codes "cAB\"" ∷ [])
unfolding table_header
quoted_header = refl

no_header : table_header (codes "[a.b] = 1") ≡ none
unfolding table_header
no_header = refl

value_line : table_header (codes "ports = [\"a\"]") ≡ none
unfolding table_header
value_line = refl

-- Two files: `own_file`, and what is left of it without `web`; a parser that knows these two.
abbrev web : Entry
web = record {
  backend = codes "remote";
  managed = none;
  host = codes "h";
  user = [];
  transport = [];
  mosh_server = [];
  identity = [];
  connect_timeout = pos 0;
}

abbrev other : Entry
other = record web { backend = codes "hub"; host = codes "k" }

abbrev file_with : NameTable Entry → File
file_with es = record {
  templates = [];
  entries = es;
  providers = [];
  machines = [];
  def_user = codes "dev";
}

abbrev left_file : Text
left_file =
    edit_line (codes "# mine")
    ++ edit_line (codes "# of mac")
    ++ edit_line (codes " [ machines . \"mac.local\" ] # here")
    ++ edit_line (codes "backend = \"hub\"")
    ++ edit_line (codes "host = \"k\"")

abbrev both : NameTable Entry
both = (codes "mac.local", other) ∷ (codes "web", web) ∷ []

abbrev edit_parse : Text → Parsed
edit_parse t =
    if eq_text t own_file
    then parsed (file_with both)
    else if eq_text t left_file
    then parsed (file_with ((codes "mac.local", other) ∷ []))
    else if eq_text t (appended own_file (codes "b.c") mac)
    then parsed (file_with ((codes "b.c", mac) ∷ both))
    else malformed

web_removed :
    remove_entry edit_parse (codes "web") (content own_file) (content own_file) false ≡ ok left_file
unfolding remove_entry eq_text
web_removed = refl

remove_entry-Removed_example :
    Removed edit_parse (codes "web") (content own_file) (content own_file) left_file
remove_entry-Removed_example =
    remove_entry-Removed edit_parse (codes "web") (content own_file) (content own_file) false
      {out = left_file} web_removed

changed_refused :
    remove_entry edit_parse (codes "web") (content own_file) (content left_file) false
    ≡ failed changed_meanwhile
unfolding remove_entry eq_text
changed_refused = refl

lacks_table : LacksTable (codes "b.c") (split_after (ended own_file))
unfolding split_after ended names_machine table_header
lacks_table = (refl, (refl, (refl, (refl, (refl, (refl, (refl, (refl, (refl, (refl, tt))))))))))

full_last : (split_tail is_blank (split_after (ended own_file))).1 ≡ []
unfolding split_tail is_blank split_after ended
full_last = refl

cut_table-appended_example :
    cut_table (appended own_file (codes "b.c") mac) (codes "b.c") ≡ some (ended own_file)
cut_table-appended_example = cut_table-appended own_file (codes "b.c") mac lacks_table full_last

split_rounds-split_key_example :
    IsEnded (split_rounds 30 (codes "machines.'a.b'"))
    × (split_key (codes "machines.'a.b'") ≡ key_of (split_rounds 30 (codes "machines.'a.b'")))
split_rounds-split_key_example = split_rounds-split_key 30 (codes "machines.'a.b'") (omega arith)

-- A decoder that gives one file, with an entry of its own user, one with the default user of the
-- file, and one that names an IPv6 address.
abbrev managed_web : Entry
managed_web = record web { managed = some true; host = codes " [fe80::1]:22 " }

abbrev raw : RawFile
raw = record {
  templates = (codes "default", record no_spec { user = some (codes "ann") }) ∷ [];
  machines = (codes "mac.local", mac) ∷ (codes "web", managed_web) ∷ [];
  providers = [];
  undecoded = [];
}

abbrev decode : Text → Option RawFile
decode t = some raw

abbrev loaded : NameTable Machine
loaded =
    (
      codes "mac.local",
      record {
        name = codes "mac.local";
        backend = codes "remote";
        ssh_host = codes "ann@mac.local";
        ssh_port = 2222;
        user = codes "ann";
        identity = codes "~/.ssh/a\"b";
        transport = [];
        mosh_server = [];
        connect_timeout = pos 7;
        managed = false;
      },
    )
    ∷ (
      codes "web",
      record {
        name = codes "web";
        backend = codes "remote";
        ssh_host = codes "ann@fe80::1";
        ssh_port = 22;
        user = [];
        identity = [];
        transport = [];
        mosh_server = [];
        connect_timeout = pos 0;
        managed = true;
      },
    )
    ∷ []

abbrev loaded_file : File
loaded_file = record {
  templates = raw.templates;
  entries = raw.machines;
  providers = [];
  machines = loaded;
  def_user = codes "ann";
}

loads : parse_file all_ip_chars decode [] ≡ parsed loaded_file
unfolding parse_file eq_text
loads = refl

parse_file-IsLoaded_example :
    All (λ (r : Text × Machine). IsLoaded all_ip_chars (codes "ann") r.0 r.1) loaded
parse_file-IsLoaded_example =
    parse_file-IsLoaded all_ip_chars (λ h k. k) decode [] {f = loaded_file} loads
