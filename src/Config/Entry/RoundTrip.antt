-- ===== src/Config/Entry/RoundTrip.antt =====
-- `EntryOf` and `Entry.machine` of internal/config/file.go: a record that is made of an entry is made
-- again of the entry that is written for it.
use devvm.Prelude.{
  ℕ, Bool, true, false, not, ◌&&◌, ◌≡◌, refl, sym, ◌∙◌, ap, subst, [], ◌∷◌, ◌++◌, Option, none,
  some, ==_refl, if_rule, if◌then◌else◌, is_empty, arith,
}
use devvm.Text.{Text, eq_text, lacks}
use devvm.Text.Laws.{eq_text_eq}
use devvm.Config.HubName.{valid_name}
use devvm.Config.Entry.{
  Entry, EntryErr, Machine, Checked, fine, wrong, remote, hub, check_backend, is_set, check_rest,
  is_true, is_managed, login, destination, machine_of, or_wrong, with_host, machine, parse_host,
}
use devvm.Config.Entry.Written.{after_last, host_part, host_text, managed_bit, entry_of}
use devvm.Config.Entry.Host.{IsHost, parse_host-IsHost}
use devvm.Config.Entry.Host.Parts.{IfFine}
use devvm.Config.Entry.HostRoundTrip.{parse_host-host_text}

after_last-lacks : (c : ℕ) (s : Text) → lacks c s ≡ true → after_last c s ≡ none
unfolding after_last lacks
after_last-lacks c [] h = refl
after_last-lacks c (x ∷ s) h = rw (after_last-lacks c s (ground arith)) (ground arith)

after_last-append : (c : ℕ) (a s : Text) → lacks c s ≡ true → after_last c (a ++ c ∷ s) ≡ some s
unfolding after_last
after_last-append c [] s h = rw (after_last-lacks c s h, ==_refl c) refl
after_last-append c (x ∷ a) s h = rw (after_last-append c a s h) refl

host_part-destination : (user h : Text) → lacks b'@' h ≡ true → host_part (destination user h) ≡ h
unfolding host_part destination
host_part-destination [] h k = rw (after_last-lacks b'@' h k) refl
host_part-destination (c ∷ u) h k = rw (after_last-append b'@' (c ∷ u) h k) refl

-- No backend is two.
remote_not_hub : (b : Text) → eq_text b remote ≡ true → eq_text b hub ≡ false
unfolding eq_text
remote_not_hub b h =
    subst (λ (x : Text). eq_text x hub ≡ false) {x = remote} {y = b} (sym (eq_text_eq b remote h))
      refl

-- The managed bit, as it is written and read again.
same_bit :
    (r h t : Bool)
    → (r ≡ true → h ≡ false)
    → (r && is_true (if r then some (if h then false else r && t) else none)) ≡ (r && t)
same_bit false h t k = refl
same_bit true h t k = rw (k refl) refl

hub_unset :
    (r h b : Bool) → (r ≡ true → h ≡ false) → (h && is_set (if r then some b else none)) ≡ false
hub_unset true h b k = rw (k refl) refl
hub_unset false true b k = refl
hub_unset false false b k = refl

pub or_wrong-IfFine {ℓ} :
    {A : Type ℓ} (P : A → Type 0) (o : Option EntryErr) (k : Checked A)
    → (o ≡ none → IfFine P k)
    → IfFine P (or_wrong o k)
or_wrong-IfFine P none k f = f refl
or_wrong-IfFine P (some e) k f = tt

machine_passes :
    (is_ip : Text → Bool) (e : Entry) (name def_user : Text) {h : Text} {p : ℕ}
    → valid_name name ≡ true
    → check_backend e.backend ≡ none
    → (eq_text e.backend hub && is_set e.managed) ≡ false
    → parse_host is_ip e.host ≡ fine (h, p)
    → check_rest e ≡ none
    → machine is_ip e name def_user ≡ fine (machine_of e name def_user (h, p))
unfolding machine with_host
machine_passes is_ip e name def_user n b s k r = rw (n, b, s, k, r) refl

-- The record, as its managed bit makes it.
abbrev with_bit : Entry → Text → Text → Text × ℕ → Bool → Machine
with_bit e name def_user (h, p) g = record {
  name = name;
  backend = e.backend;
  ssh_host = destination (if is_empty e.user && g then def_user else e.user) h;
  ssh_port = p;
  user = e.user;
  identity = e.identity;
  transport = e.transport;
  mosh_server = e.mosh_server;
  connect_timeout = e.connect_timeout;
  managed = g;
}

module _ (is_ip : Text → Bool) (name def_user : Text) (e : Entry) where
  abbrev Again : Machine → Type 0
  Again m = machine is_ip (entry_of m) name def_user ≡ fine m

  again :
      (h : Text) (p : ℕ)
      → IsHost is_ip h p
      → valid_name name ≡ true
      → check_backend e.backend ≡ none
      → check_rest e ≡ none
      → Again (machine_of e name def_user (h, p))
  unfolding machine_of login is_managed entry_of managed_bit check_rest
  again h p k n b r =
      machine_passes is_ip (entry_of (machine_of e name def_user (h, p))) name def_user {h = h}
        {p = p} n b
        (hub_unset (eq_text e.backend remote) (eq_text e.backend hub) _ (remote_not_hub e.backend))
        (ap (λ (x : Text). parse_host is_ip (host_text x p))
            (host_part-destination (login e def_user) h k.no_user)
          ∙ parse_host-host_text is_ip h p k)
        r
      ∙ ap (λ (g : Bool). fine (with_bit e name def_user (h, p) g))
          (same_bit (eq_text e.backend remote) (eq_text e.backend hub) (is_true e.managed)
            (remote_not_hub e.backend))

  with_host-Again :
      (x : Checked (Text × ℕ))
      → IfFine (λ (a : Text × ℕ). IsHost is_ip a.0 a.1) x
      → valid_name name ≡ true
      → check_backend e.backend ≡ none
      → IfFine Again (with_host e name def_user x)
  unfolding with_host
  with_host-Again (wrong w) k n b = tt
  with_host-Again (fine (h, p)) k n b = or_wrong-IfFine Again (check_rest e) _ (again h p k n b)

  machine-Again : IfFine Again (machine is_ip e name def_user)
  unfolding machine
  machine-Again =
      if_rule (IfFine Again) (not (valid_name name)) (λ x. tt)
        (λ x. or_wrong-IfFine Again (check_backend e.backend) _ (λ b.
          if_rule (IfFine Again) (eq_text e.backend hub && is_set e.managed) (λ y. tt)
            (λ y.
              with_host-Again (parse_host is_ip e.host) (parse_host-IsHost is_ip e.host)
                (ground arith) b)))

pub of_fine {ℓ} :
    {A : Type ℓ} (P : A → Type 0) (x : Checked A) {a : A} → IfFine P x → x ≡ fine a → P a
of_fine P (wrong w) k h = absurd (cc)
of_fine P (fine b) {a} k h = subst P {x = b} {y = a} (cc) k

-- Whatever an entry loads to, the entry written for that record loads to it again, under the same
-- name and default user.
pub machine-entry_of :
    (is_ip : Text → Bool) (e : Entry) (name def_user : Text) {m : Machine}
    → machine is_ip e name def_user ≡ fine m
    → machine is_ip (entry_of m) name def_user ≡ fine m
machine-entry_of is_ip e name def_user {m} h =
    of_fine (Again is_ip name def_user e) (machine is_ip e name def_user) {a = m}
      (machine-Again is_ip name def_user e) h
