-- ===== src/Config/Entry/Safe.antt =====
-- `Entry.machine` of internal/config/file.go: the destination that ssh is given is no option and one
-- word.
use devvm.Prelude.{
  ℕ, ◌≤◌, Bool, true, false, not, ◌&&◌, ◌||◌, ◌≡◌, inl, inr, refl, sym, subst, [], ◌∷◌, none, leb,
  ◌==◌, if_rule, Bool-cases, is_empty, arith,
}
use devvm.Text.{Text, eq_text, has_prefix, lacks}
use devvm.Config.HubName.{is_alnum, valid_name}
use devvm.Config.Entry.{
  Entry, Machine, Checked, fine, wrong, hub, check_backend, is_set, check_rest, is_letter,
  is_user_char, all_entry_user_chars, valid_entry_user, is_managed, login, destination, machine_of,
  with_host, machine, parse_host, no_separators,
}
use devvm.Config.Entry.Host.{IsHost, parse_host-IsHost}
use devvm.Config.Entry.Host.Parts.{IfFine, no_separators-append}
use devvm.Config.Entry.RoundTrip.{or_wrong-IfFine, of_fine}

-- The characters of an IP address.
abbrev pub is_ip_char : ℕ → Bool
is_ip_char c =
    leb 48 c && leb c 57 || leb 97 c && leb c 102 || leb 65 c && leb c 70 || c == b':' || c == b'.'

abbrev pub all_ip_chars : Text → Bool
all_ip_chars [] = true
all_ip_chars (c ∷ s) = is_ip_char c && all_ip_chars s

-- What ssh takes as one word, and not as an option.
pub record IsDestination (s : Text) : Type 0 where
  pub no_option : has_prefix (b'-' ∷ []) s ≡ false
  pub clean : no_separators s ≡ true

user_char_clean : (c : ℕ) → is_user_char c ≡ true → no_separators (c ∷ []) ≡ true
unfolding is_user_char is_alnum no_separators lacks
user_char_clean c h = ground arith

all_entry_user_chars-clean : (s : Text) → all_entry_user_chars s ≡ true → no_separators s ≡ true
unfolding all_entry_user_chars no_separators lacks
all_entry_user_chars-clean [] h = refl
all_entry_user_chars-clean (c ∷ s) h =
    no_separators-append (c ∷ []) s (user_char_clean c (ground arith))
      (all_entry_user_chars-clean s (ground arith))

first_char_fine :
    (c : ℕ) → (is_letter c || c == b'_') ≡ true → (is_user_char c ≡ true) × ((b'-' == c) ≡ false)
unfolding is_letter is_user_char is_alnum
first_char_fine c h = ground arith

valid_entry_user-parts :
    (c : ℕ) (s : Text)
    → valid_entry_user (c ∷ s) ≡ true
    → ((is_letter c || c == b'_') ≡ true) × (all_entry_user_chars s ≡ true)
unfolding valid_entry_user
valid_entry_user-parts c s h = ground arith

valid_entry_user-IsDestination : (u : Text) → valid_entry_user u ≡ true → IsDestination u
unfolding valid_entry_user has_prefix
valid_entry_user-IsDestination [] h = absurd (cc)
valid_entry_user-IsDestination (c ∷ s) h =
    let (first, others) = valid_entry_user-parts c s h in
    let f = first_char_fine c first in
    record {
      no_option = rw f.1 refl;
      clean =
          no_separators-append (c ∷ []) s (user_char_clean c f.0)
            (all_entry_user_chars-clean s others);
    }

at_clean : no_separators (b'@' ∷ []) ≡ true
unfolding no_separators lacks
at_clean = refl

user_checked :
    (e : Entry) → check_rest e ≡ none → is_empty e.user ≡ false → valid_entry_user e.user ≡ true
unfolding check_rest
user_checked e h k = elim (Bool-cases (valid_entry_user e.user)) [
  | inl v ↦ v
  | inr v ↦ let h' = rw (k, v) at h in absurd (cc)
]

dash_apart : (c : ℕ) (t : Text) → (c == b'-') ≡ false → has_prefix (b'-' ∷ []) (c ∷ t) ≡ false
unfolding has_prefix
dash_apart c t h = ground arith

ip_no_option : (h : Text) → all_ip_chars h ≡ true → has_prefix (b'-' ∷ []) h ≡ false
unfolding has_prefix
ip_no_option [] k = refl
ip_no_option (c ∷ t) k = ground arith

module _ (is_ip : Text → Bool) (ip_form : (h : Text) → is_ip h ≡ true → all_ip_chars h ≡ true) where
  host_no_option : (h : Text) (p : ℕ) → IsHost is_ip h p → has_prefix (b'-' ∷ []) h ≡ false
  host_no_option h p k = elim k.form [
    | inl i ↦
        subst (λ (x : Text). has_prefix (b'-' ∷ []) x ≡ false) {x = i.first ∷ i.tail} {y = h}
          (sym i.is_cons) (dash_apart i.first i.tail i.no_dash)
    | inr i ↦ ip_no_option h (ip_form h i.accepted)
  ]

  destination-IsDestination :
      (u h : Text) (p : ℕ)
      → IsHost is_ip h p
      → (is_empty u ≡ false → IsDestination u)
      → IsDestination (destination u h)
  unfolding destination has_prefix
  destination-IsDestination [] h p k f = record {
    no_option = host_no_option h p k;
    clean = k.clean;
  }
  destination-IsDestination (c ∷ u) h p k f =
      let d = f refl in
      record {
        no_option = d.no_option;
        clean =
            no_separators-append (c ∷ u) (b'@' ∷ h) d.clean
              (no_separators-append (b'@' ∷ []) h at_clean k.clean);
      }

  module _ (name def_user : Text) (v : valid_entry_user def_user ≡ true) (e : Entry) where
    abbrev IsSafe : Machine → Type 0
    IsSafe m = IsDestination m.ssh_host × (m.ssh_port ≤ 65535)

    login-IsDestination :
        check_rest e ≡ none → is_empty (login e def_user) ≡ false → IsDestination (login e def_user)
    unfolding login
    login-IsDestination r =
        if_rule (λ (u : Text). is_empty u ≡ false → IsDestination u)
          (is_empty e.user && is_managed e) (λ b n. valid_entry_user-IsDestination def_user v)
          (λ b n. valid_entry_user-IsDestination e.user (user_checked e r n))

    with_host-IsSafe :
        (x : Checked (Text × ℕ))
        → IfFine (λ (a : Text × ℕ). IsHost is_ip a.0 a.1) x
        → IfFine IsSafe (with_host e name def_user x)
    unfolding with_host machine_of
    with_host-IsSafe (wrong w) k = tt
    with_host-IsSafe (fine (h, p)) k = or_wrong-IfFine IsSafe (check_rest e) _ (λ r.
        (destination-IsDestination (login e def_user) h p k (login-IsDestination r), k.max_port))

    machine-IfSafe : IfFine IsSafe (machine is_ip e name def_user)
    unfolding machine
    machine-IfSafe =
        if_rule (IfFine IsSafe) (not (valid_name name)) (λ x. tt)
          (λ x. or_wrong-IfFine IsSafe (check_backend e.backend) _ (λ b.
            if_rule (IfFine IsSafe) (eq_text e.backend hub && is_set e.managed) (λ y. tt)
              (λ y. with_host-IsSafe (parse_host is_ip e.host) (parse_host-IsHost is_ip e.host))))

  -- An entry that loads gives ssh a destination that starts with no dash, and has neither spaces
  -- nor tabs, line ends or slashes, and a port that is at most 65535; the default user is valid.
  pub machine-IsDestination :
      (e : Entry) (name def_user : Text) {m : Machine}
      → valid_entry_user def_user ≡ true
      → machine is_ip e name def_user ≡ fine m
      → IsDestination m.ssh_host × (m.ssh_port ≤ 65535)
  machine-IsDestination e name def_user {m} v h =
      of_fine (IsSafe name def_user v e) (machine is_ip e name def_user) {a = m}
        (machine-IfSafe name def_user v e) h
