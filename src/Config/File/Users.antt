-- ===== src/Config/File/Users.antt =====
-- `ParseFile` of internal/config/file.go: what holds of every record of a file that parses.
use devvm.Prelude.{
  ℕ, ◌≤◌, Bool, true, ◌||◌, ◌≡◌, inl, inr, refl, subst, List, [], ◌∷◌, Option, none, some, ◌==◌,
  if_rule, Bool-cases, is_empty, All, arith,
}
use devvm.Text.{Text}
use devvm.Config.HubName.{is_alnum}
use devvm.Config.Templates.{default_name, default_user}
use devvm.Config.Templates.Valid.{
  user_start, user_char, all_user_chars, SpecErr, is_login, valid_user,
}
use devvm.Config.Entry.{
  Entry, Machine, Checked, fine, wrong, machine, is_letter, is_user_char, all_entry_user_chars,
  valid_entry_user,
}
use devvm.Config.Entry.Written.{entry_of}
use devvm.Config.Entry.RoundTrip.{machine-entry_of}
use devvm.Config.Entry.Safe.{all_ip_chars, IsDestination, machine-IsDestination}
use devvm.Config.File.Same.Sound.{and_parts}
use devvm.Config.File.{
  NameTable, lookup, user_of, add_entry, RawFile, File, FileErr, Parsed, parsed, malformed, invalid,
  valid_or_default, file_user, check_entries, file_errors, file_of, checked_file, parse_file,
}

login_start : (c : ℕ) → user_start c ≡ true → (is_letter c || c == b'_') ≡ true
unfolding is_letter
login_start c h = ground arith

login_char : (c : ℕ) → user_char c ≡ true → is_user_char c ≡ true
unfolding is_user_char is_alnum
login_char c h = ground arith

login_chars : (s : Text) → all_user_chars s ≡ true → all_entry_user_chars s ≡ true
unfolding all_user_chars all_entry_user_chars
login_chars [] h = refl
login_chars (c ∷ s) h =
    let (first, others) = and_parts (user_char c) (all_user_chars s) h in
    rw (login_char c first, login_chars s others) refl

-- A template's user is one that an entry may have.
login-entry_user : (u : Text) → is_login u ≡ true → valid_entry_user u ≡ true
unfolding is_login valid_entry_user
login-entry_user [] h = absurd (cc)
login-entry_user (c ∷ s) h =
    let (first, others) = and_parts _ _ (and_parts _ _ h).0 in
    rw (login_start c first, login_chars s others) refl

valid_user-is_login : (u : Text) → valid_user u ≡ none → is_login u ≡ true
unfolding valid_user
valid_user-is_login u h = elim (Bool-cases (is_login u)) [
  | inl k ↦ k
  | inr k ↦ let h' = rw k at h in absurd (cc)
]

default_fine : valid_entry_user default_user ≡ true
unfolding valid_entry_user all_entry_user_chars is_user_char is_letter is_alnum
default_fine = refl

valid_or_default-entry_user : (o : Option Text) → valid_entry_user (valid_or_default o) ≡ true
unfolding valid_or_default
valid_or_default-entry_user none = default_fine
valid_or_default-entry_user (some u) =
    if_rule (λ (x : Text). valid_entry_user x ≡ true) (is_empty u) (λ h. default_fine)
      (λ h. chosen (valid_user u) refl)
  where
    chosen :
        (o : Option SpecErr)
        → valid_user u ≡ o
        → valid_entry_user (elim o [ none ↦ u | some e ↦ default_user ]) ≡ true
    chosen none e = login-entry_user u (valid_user-is_login u e)
    chosen (some w) e = default_fine

-- What holds of a record of a file: it is safe for ssh, and the entry written for it loads to it.
pub record IsLoaded (is_ip : Text → Bool) (user name : Text) (m : Machine) : Type 0 where
  pub destination : IsDestination m.ssh_host
  pub max_port : m.ssh_port ≤ 65535
  pub again : machine is_ip (entry_of m) name user ≡ fine m

module _ (is_ip : Text → Bool) (ip_form : (h : Text) → is_ip h ≡ true → all_ip_chars h ≡ true) where
  abbrev IsRow : Text → Text × Machine → Type 0
  IsRow user (n, m) = IsLoaded is_ip user n m

  add_entry-IsRow :
      (user n : Text) (x : Checked Machine) (rest : NameTable Machine × List FileErr)
      → ((m : Machine) → x ≡ fine m → IsLoaded is_ip user n m)
      → All (IsRow user) rest.0
      → All (IsRow user) (add_entry n x rest).0
  add_entry-IsRow user n (fine m) rest h k = (h m refl, k)
  add_entry-IsRow user n (wrong w) rest h k = k

  check_entries-IsRow :
      (user : Text) (t : NameTable Entry)
      → valid_entry_user user ≡ true
      → All (IsRow user) (check_entries is_ip user t).0
  unfolding check_entries
  check_entries-IsRow user [] v = tt
  check_entries-IsRow user ((n, e) ∷ t) v =
      add_entry-IsRow user n (machine is_ip e n user) (check_entries is_ip user t)
        (λ m h.
          let safe = machine-IsDestination is_ip ip_form e n user {m = m} v h in
          record {
            destination = safe.0;
            max_port = safe.1;
            again = machine-entry_of is_ip e n user {m = m} h;
          })
        (check_entries-IsRow user t v)

  abbrev IsParsed : Parsed → Type 0
  IsParsed (parsed f) = All (IsRow f.def_user) f.machines
  IsParsed malformed = Unit
  IsParsed (invalid errs) = Unit

  checked_file-IsParsed : (o : Option RawFile) → IsParsed (checked_file is_ip o)
  unfolding checked_file file_of file_user
  checked_file-IsParsed none = tt
  checked_file-IsParsed (some r) =
      if_rule IsParsed (is_empty (file_errors is_ip r))
        (λ h.
          check_entries-IsRow (file_user r.templates) r.machines
            (valid_or_default-entry_user (user_of (lookup default_name r.templates))))
        (λ h. tt)

  -- Every record of a devvm.toml that parses gives ssh a destination that starts with no dash and
  -- has no space, tab, line end or slash, and a port of at most 65535; and the entry that is
  -- written for the record loads to it again, under its name and the file's default user. What
  -- net.ParseIP accepts has only hexadecimal digits, colons and dots.
  pub parse_file-IsLoaded :
      (decode : Text → Option RawFile) (file : Text) {f : File}
      → parse_file is_ip decode file ≡ parsed f
      → All (λ (r : Text × Machine). IsLoaded is_ip f.def_user r.0 r.1) f.machines
  unfolding parse_file
  parse_file-IsLoaded decode file {f} h =
      of_parsed (checked_file is_ip (decode file)) (checked_file-IsParsed (decode file)) h
    where
      of_parsed :
          (x : Parsed)
          → IsParsed x
          → x ≡ parsed f
          → All (λ (r : Text × Machine). IsLoaded is_ip f.def_user r.0 r.1) f.machines
      of_parsed (parsed g) k e =
          subst
            (λ (y : File).
              All (λ (r : Text × Machine). IsLoaded is_ip y.def_user r.0 r.1) y.machines)
            {x = g} {y = f} (cc) k
      of_parsed malformed k e = absurd (cc)
      of_parsed (invalid errs) k e = absurd (cc)
