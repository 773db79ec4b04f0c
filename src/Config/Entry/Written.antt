-- ===== src/Config/Entry/Written.antt =====
-- `EntryOf` of internal/config/file.go: the entry that is written for a record.
use devvm.Prelude.{ℕ, Bool, false, [], ◌∷◌, ◌++◌, Option, none, some, ◌==◌, if◌then◌else◌}
use devvm.Text.{Text, eq_text, lacks}
use devvm.Text.Decimal.{format_nat}
use devvm.Config.Entry.{Entry, Machine, remote, hub}

-- What is behind the last occurrence of a character, or the whole text.
unfoldable pub after_last : ℕ → Text → Option Text
after_last c [] = none
after_last c (x ∷ s) = elim (after_last c s) [
  | some t ↦ some t
  | none ↦ if x == c then some s else none
]

unfoldable pub host_part : Text → Text
unfolding after_last
host_part s = elim (after_last b'@' s) [ none ↦ s | some t ↦ t ]

-- The host with its port, an IPv6 address in brackets.
unfoldable pub bracketed_host : Text → Text
unfolding lacks
bracketed_host h = if lacks b':' h then h else b'[' ∷ (h ++ b']' ∷ [])

unfoldable pub host_text : Text → ℕ → Text
unfolding bracketed_host format_nat
host_text h p = if p == 0 then bracketed_host h else bracketed_host h ++ b':' ∷ format_nat p

-- `Machine.Managed`.
unfoldable pub managed_bit : Machine → Bool
unfolding eq_text
managed_bit m = if eq_text m.backend hub then false else m.managed

-- `EntryOf`.
unfoldable pub entry_of : Machine → Entry
unfolding host_text host_part managed_bit eq_text
entry_of m = record {
  backend = m.backend;
  managed = if eq_text m.backend remote then some (managed_bit m) else none;
  host = host_text (host_part m.ssh_host) m.ssh_port;
  user = m.user;
  transport = m.transport;
  mosh_server = m.mosh_server;
  identity = m.identity;
  connect_timeout = m.connect_timeout;
}
