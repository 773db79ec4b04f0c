-- ===== src/Session/Table.antt =====
-- The Go map `d.forwards` (guest port to `*fwd`) of internal/session/daemon.go, as a list with one
-- record for each guest port, and the identity test `d.forwards[f.guest] == f`.
pub mod Rules
pub mod Find
pub mod Unique
use devvm.Prelude.{
  keep, not, ℕ, false, ◌≡◌, List, [], ◌∷◌, Option, none, some, ◌==◌, if◌then◌else◌, All,
}
use devvm.Session.Fwd.{Fwd}

abbrev pub Table : Type 0
Table = List Fwd

unfoldable pub find : ℕ → Table → Option Fwd
find g [] = none
find g (f ∷ fs) = if f.guest == g then some f else find g fs

unfoldable pub put : Fwd → Table → Table
put f [] = f ∷ []
put f (x ∷ xs) = if x.guest == f.guest then f ∷ xs else x ∷ put f xs

unfoldable pub erase : ℕ → Table → Table
erase g = keep (λ f. not (f.guest == g))

-- A binder's `*fwd`: the guest port and the identity.
pub record Ref : Type 0 where
  pub guest : ℕ
  pub id : ℕ

abbrev pub ref_of : Fwd → Ref
ref_of f = record { guest = f.guest; id = f.id }

-- The record behind a `*fwd` while it is the one in the map. What a binder holds and the map does
-- not is never read again.
abbrev same_id : ℕ → Option Fwd → Option Fwd
same_id i none = none
same_id i (some f) = if f.id == i then some f else none

unfoldable pub held : Ref → Table → Option Fwd
held r fs = same_id r.id (find r.guest fs)

-- No two records stand under one guest port.
abbrev pub IsFree : ℕ → Table → Type 0
IsFree g fs = All (λ f. (f.guest == g) ≡ false) fs

abbrev pub IsMap : Table → Type 0
IsMap [] = Unit
IsMap (f ∷ fs) = IsFree f.guest fs × IsMap fs

-- What becomes of a forward that was found.
abbrev pub on_found : (Fwd → Option Fwd) → Option Fwd → Option Fwd
on_found k none = none
on_found k (some f) = k f
