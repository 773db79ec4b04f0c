-- ===== src/Session/Owner.antt =====
-- internal/session/daemon.go: the holders of a forward (`owner`, `ownerInfo`) and the Go map
-- from an owner to its info, as an association list with one entry for each owner.
-- Wall-clock times are numbers; 0 is Go's zero time, which never expires.
pub mod Each
pub mod Once
use devvm.Prelude.{
  ℕ, Bool, true, false, List, [], ◌∷◌, Option, none, some, ltb, ◌==◌, if◌then◌else◌,
}

-- `owner`: the connection number is that of the session that holds the forward.
pub data Owner : Type 0 where
  conf : Owner
  ttl : Owner
  connection : ℕ → Owner

-- Go's `==` on the comparable struct `owner`.
abbrev pub same : Owner → Owner → Bool
same conf conf = true
same ttl ttl = true
same (connection a) (connection b) = a == b
same _ _ = false

-- `map[owner]ownerInfo`, with the expiry for the info.
abbrev pub Owners : Type 0
Owners = List (Owner × ℕ)

unfoldable pub expiry_of : Owner → Owners → Option ℕ
expiry_of o [] = none
expiry_of o ((p, e) ∷ m) = if same p o then some e else expiry_of o m

unfoldable pub put_owner : Owner → ℕ → Owners → Owners
put_owner o e [] = (o, e) ∷ []
put_owner o e ((p, x) ∷ m) = if same p o then (p, e) ∷ m else (p, x) ∷ put_owner o e m

-- `delete(f.owners, own)`.
unfoldable pub delete_owner : Owner → Owners → Owners
delete_owner o [] = []
delete_owner o ((p, x) ∷ m) = if same p o then m else (p, x) ∷ delete_owner o m

-- The owners that `match` does not select, as the loop of `dropOwnersLocked` leaves them.
unfoldable pub reject_owners : (Owner → ℕ → Bool) → Owners → Owners
reject_owners match [] = []
reject_owners match ((p, x) ∷ m) =
    let rest = reject_owners match m in if match p x then rest else (p, x) ∷ rest

-- `addOwner`: the new owners, and whether the owner is new. A repeat is refreshed by a later
-- expiry, and never shortened.
unfoldable pub add_owner : Owner → ℕ → Owners → Owners × Bool
add_owner o e m = elim (expiry_of o m) [
  | some cur ↦ (if ltb cur e then put_owner o e m else m, false)
  | none ↦ (put_owner o e m, true)
]

abbrev pub is_conf : Owner → Bool
is_conf conf = true
is_conf _ = false

abbrev pub is_ttl : Owner → Bool
is_ttl ttl = true
is_ttl _ = false
