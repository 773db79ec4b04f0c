-- ===== src/Config/Entry.antt =====
-- internal/config/file.go: a `[machines.NAME]` table as it is written, its check, and the record
-- that is made of it. Of a record stand here the fields that an entry sets: the others are nil.
-- `net.ParseIP` is an argument, `is_ip`, which says whether it accepts a text.
pub mod Host
pub mod HostRoundTrip
pub mod RoundTrip
pub mod Safe
pub mod Written
use devvm.Prelude.{
  ℕ, Bool, true, false, not, ◌&&◌, ◌||◌, List, [], ◌∷◌, ◌++◌, Option, none, some, leb, ◌==◌,
  if◌then◌else◌, is_empty,
}
use devvm.Text.{Text, codes, cut, eq_text, has_prefix, lacks, newline, trim_space}
use devvm.Text.Decimal.{Int64, plus, minus, parse_int, format_nat}
use devvm.Config.HubName.{is_alnum, valid_name}
use devvm.Config.Templates.{ℤ, pos, negsuc}

pub record Entry : Type 0 where
  pub backend : Text
  pub managed : Option Bool
  pub host : Text
  pub user : Text
  pub transport : Text
  pub mosh_server : Text
  pub identity : Text
  pub connect_timeout : ℤ

pub record Machine : Type 0 where
  pub name : Text
  pub backend : Text
  pub ssh_host : Text
  pub ssh_port : ℕ
  pub user : Text
  pub identity : Text
  pub transport : Text
  pub mosh_server : Text
  pub connect_timeout : ℤ
  pub managed : Bool

pub data EntryErr : Type 0 where
  bad_name : EntryErr
  no_backend : EntryErr
  smol_discovered : EntryErr
  hetzner_discovered : EntryErr
  old_layout : EntryErr
  bad_backend : EntryErr
  managed_hub : EntryErr
  no_host : EntryErr
  host_user : EntryErr
  bad_host : EntryErr
  unclosed : EntryErr
  not_ipv6 : EntryErr
  needs_brackets : EntryErr
  bad_port : EntryErr
  bad_user : EntryErr
  bad_transport : EntryErr
  negative_timeout : EntryErr

-- A result, or the first check that failed.
pub data Checked {ℓ} (A : Type ℓ) : Type ℓ where
  fine : A → Checked A
  wrong : EntryErr → Checked A

-- The backends and the transports.
abbrev pub smol : Text
smol = codes "smol"

abbrev pub remote : Text
remote = codes "remote"

abbrev pub hub : Text
hub = codes "hub"

abbrev pub hetzner : Text
hetzner = codes "hetzner"

abbrev pub ssh : Text
ssh = codes "ssh"

abbrev pub mosh : Text
mosh = codes "mosh"

-- The port behind the host; none is 0.
unfoldable pub in_port_range : Text → Option Int64 → Checked (Text × ℕ)
in_port_range h none = wrong bad_port
in_port_range h (some (minus n)) = wrong bad_port
in_port_range h (some (plus n)) = if leb 1 n && leb n 65535 then fine (h, n) else wrong bad_port

unfoldable pub with_port : Text → Text → Checked (Text × ℕ)
unfolding parse_int in_port_range
with_port h p = if is_empty p then fine (h, 0) else in_port_range h (parse_int p)

-- What is behind an address in brackets.
unfoldable pub bracket_port : Text → Text → Checked (Text × ℕ)
unfolding with_port
bracket_port h [] = with_port h []
bracket_port h (c ∷ p) = if not (c == b':') || is_empty p then wrong bad_host else with_port h p

unfoldable pub bracket_host : (Text → Bool) → Option (Text × Text) → Checked (Text × ℕ)
unfolding bracket_port lacks
bracket_host is_ip none = wrong unclosed
bracket_host is_ip (some (h, rest)) =
    if not (is_ip h) || lacks b':' h then wrong not_ipv6 else bracket_port h rest

-- A host without brackets: no colon, or one.
unfoldable pub plain_host : Text → Option (Text × Text) → Checked (Text × ℕ)
unfolding with_port lacks
plain_host s none = with_port s []
plain_host s (some (h, p)) =
    if not (lacks b':' p)
    then wrong needs_brackets
    else if is_empty h || is_empty p
    then wrong bad_host
    else with_port h p

unfoldable pub split_host : (Text → Bool) → Text → Checked (Text × ℕ)
unfolding bracket_host plain_host cut
split_host is_ip [] = wrong no_host
split_host is_ip (c ∷ s) =
    if c == b'[' then bracket_host is_ip (cut b']' s) else plain_host (c ∷ s) (cut b':' (c ∷ s))

-- `strings.ContainsAny(s, " \t\n/")`.
unfoldable pub no_separators : Text → Bool
unfolding lacks
no_separators s = lacks b' ' s && lacks 9 s && lacks newline s && lacks b'/' s

unfoldable pub check_host : (Text → Bool) → Text → Checked (Text × ℕ)
unfolding split_host no_separators lacks has_prefix
check_host is_ip s =
    if is_empty s
    then wrong no_host
    else if not (lacks b'@' s)
    then wrong host_user
    else if has_prefix (b'-' ∷ []) s || not (no_separators s)
    then wrong bad_host
    else split_host is_ip s

-- `ParseHost`.
unfoldable pub parse_host : (Text → Bool) → Text → Checked (Text × ℕ)
unfolding check_host trim_space
parse_host is_ip s = check_host is_ip (trim_space s)

-- `entryUserRe`: [A-Za-z_][A-Za-z0-9._-]*.
unfoldable pub is_letter : ℕ → Bool
is_letter c = leb 65 c && leb c 90 || leb 97 c && leb c 122

unfoldable pub is_user_char : ℕ → Bool
unfolding is_alnum
is_user_char c = is_alnum c || c == b'.' || c == b'_' || c == b'-'

unfoldable pub all_entry_user_chars : Text → Bool
unfolding is_user_char
all_entry_user_chars [] = true
all_entry_user_chars (c ∷ s) = is_user_char c && all_entry_user_chars s

unfoldable pub valid_entry_user : Text → Bool
unfolding is_letter all_entry_user_chars
valid_entry_user [] = false
valid_entry_user (c ∷ s) = (is_letter c || c == b'_') && all_entry_user_chars s

unfoldable pub check_backend : Text → Option EntryErr
unfolding eq_text
check_backend b =
    if eq_text b remote || eq_text b hub
    then none
    else if is_empty b
    then some no_backend
    else if eq_text b smol
    then some smol_discovered
    else if eq_text b hetzner
    then some hetzner_discovered
    else if eq_text b (codes "remote-managed")
        || eq_text b (codes "remote-unmanaged")
        || eq_text b (codes "ssh")
    then some old_layout
    else some bad_backend

abbrev is_set {ℓ} : {A : Type ℓ} → Option A → Bool
is_set none = false
is_set (some v) = true

abbrev is_negative : ℤ → Bool
is_negative (pos n) = false
is_negative (negsuc n) = true

unfoldable pub check_rest : Entry → Option EntryErr
unfolding valid_entry_user eq_text
check_rest e =
    if not (is_empty e.user) && not (valid_entry_user e.user)
    then some bad_user
    else if not (is_empty e.transport || eq_text e.transport ssh || eq_text e.transport mosh)
    then some bad_transport
    else if is_negative e.connect_timeout
    then some negative_timeout
    else none

abbrev is_true : Option Bool → Bool
is_true none = false
is_true (some b) = b

unfoldable pub is_managed : Entry → Bool
unfolding eq_text
is_managed e = eq_text e.backend remote && is_true e.managed

-- The user of the ssh destination: the entry's own, or on a managed entry the default one.
unfoldable pub login : Entry → Text → Text
unfolding is_managed
login e def_user = if is_empty e.user && is_managed e then def_user else e.user

unfoldable pub destination : Text → Text → Text
destination user h = if is_empty user then h else user ++ b'@' ∷ h

unfoldable pub machine_of : Entry → Text → Text → Text × ℕ → Machine
unfolding is_managed login destination
machine_of e name def_user (h, p) = record {
  name = name;
  backend = e.backend;
  ssh_host = destination (login e def_user) h;
  ssh_port = p;
  user = e.user;
  identity = e.identity;
  transport = e.transport;
  mosh_server = e.mosh_server;
  connect_timeout = e.connect_timeout;
  managed = is_managed e;
}

-- `Entry.machine`.
abbrev or_wrong {ℓ} : {A : Type ℓ} → Option EntryErr → Checked A → Checked A
or_wrong none k = k
or_wrong (some e) k = wrong e

unfoldable pub with_host : Entry → Text → Text → Checked (Text × ℕ) → Checked Machine
unfolding check_rest machine_of
with_host e name def_user (wrong w) = wrong w
with_host e name def_user (fine h) = or_wrong (check_rest e) (fine (machine_of e name def_user h))

unfoldable pub machine : (Text → Bool) → Entry → Text → Text → Checked Machine
unfolding valid_name check_backend with_host parse_host eq_text
machine is_ip e name def_user =
    if not (valid_name name)
    then wrong bad_name
    else or_wrong (check_backend e.backend) (
        if eq_text e.backend hub && is_set e.managed
        then wrong managed_hub
        else with_host e name def_user (parse_host is_ip e.host))
