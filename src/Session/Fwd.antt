-- ===== src/Session/Fwd.antt =====
-- internal/session/daemon.go: one forward (`fwd`) and its methods; internal/session/protocol.go:
-- its form on the wire (`Forward`).
-- `id` stands for the identity of the Go object behind a `*fwd`. `lastErr` (it only keeps a log
-- line from repeating) and the channel `ready` (a waiting add starts over) are left out.
use devvm.Prelude.{
  ℕ, Bool, true, false, ◌||◌, ◌&&◌, not, List, [], ◌∷◌, Option, none, some, ltb, ◌==◌,
  if◌then◌else◌, is_empty,
}
use devvm.Session.Owner.{Owner, conf, ttl, connection, Owners, is_ttl}

-- What a transport's `forward` returned: which transport carries it, and whether [::1] is bound.
pub record Closer : Type 0 where
  pub transport : ℕ
  pub serial : ℕ
  pub v6 : Bool

pub record Fwd : Type 0 where
  pub id : ℕ
  pub host : ℕ
  pub guest : ℕ
  pub exact : Bool
  pub closer : Option Closer
  pub binding : Bool
  pub owners : Owners
  pub v6 : Bool

abbrev pub is_none {ℓ} : {A : Type ℓ} → Option A → Bool
is_none none = true
is_none (some a) = false

abbrev pub start_binding : Fwd → Fwd
start_binding f = record f { binding = true }

-- A slot that is not being bound stays as it is.
abbrev pub finish_binding : Fwd → Fwd
finish_binding f = record f { binding = false }

abbrev pub new_fwd : ℕ → ℕ → ℕ → Bool → Owner → ℕ → Fwd
new_fwd id host guest exact own expires = record {
  id = id;
  host = host;
  guest = guest;
  exact = exact;
  closer = none;
  binding = false;
  owners = (own, expires) ∷ [];
  v6 = false;
}

-- `f.owners` is empty: nobody holds the forward.
abbrev pub unheld : Fwd → Bool
unheld f = is_empty f.owners

-- The strings of `OwnerConf`, `OwnerConnection` and `OwnerTTL`, in the order of their spelling.
pub data Kind : Type 0 where
  conf_kind : Kind
  connection_kind : Kind
  ttl_kind : Kind

abbrev pub kind_of : Owner → Kind
kind_of conf = conf_kind
kind_of (connection c) = connection_kind
kind_of ttl = ttl_kind

abbrev pub rank : Kind → ℕ
rank conf_kind = 0
rank connection_kind = 1
rank ttl_kind = 2

-- Puts a kind into a sorted list, unless it is there: the `seen` test and the sort of `ownerKinds`.
unfoldable pub insert_kind : Kind → List Kind → List Kind
insert_kind k [] = k ∷ []
insert_kind k (x ∷ xs) =
    if rank k == rank x
    then x ∷ xs
    else if ltb (rank k) (rank x)
    then k ∷ x ∷ xs
    else x ∷ insert_kind k xs

unfoldable pub owner_kinds : Owners → List Kind
owner_kinds [] = []
owner_kinds ((o, e) ∷ m) = insert_kind (kind_of o) (owner_kinds m)

-- `expires`: the latest expiry of a ttl owner, if one holds the forward.
later : Option ℕ → ℕ → Option ℕ
later none e = some e
later (some x) e = some (if ltb x e then e else x)

unfoldable pub expires : Owners → Option ℕ
unfolding later
expires [] = none
expires ((o, e) ∷ m) = if is_ttl o && not (e == 0) then later (expires m) e else expires m

pub record Forward : Type 0 where
  pub host : ℕ
  pub guest : ℕ
  pub pending : Bool
  pub exact : Bool
  pub owners : List Kind
  pub expires : Option ℕ

unfoldable pub wire : Fwd → Forward
wire f = record {
  host = f.host;
  guest = f.guest;
  pending = is_none f.closer;
  exact = f.exact;
  owners = owner_kinds f.owners;
  expires = expires f.owners;
}

-- `HasOwner`.
unfoldable pub has_owner : Kind → List Kind → Bool
has_owner k [] = false
has_owner k (x ∷ xs) = rank x == rank k || has_owner k xs

-- `IsConf`: an old daemon sends no owners, and then every forward is the conf's.
unfoldable pub is_conf_forward : Forward → Bool
unfolding has_owner
is_conf_forward w = is_empty w.owners || has_owner conf_kind w.owners
