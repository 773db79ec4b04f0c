-- ===== src/Session/Daemon.antt =====
-- internal/session/daemon.go and daemon_session.go: the daemon's state and the critical sections
-- under `d.mu`, each a function of the state. Closing a forward outside the lock is an entry of
-- `closed`, newest first; closing a session's connection is an entry of `hung_up`.
-- Logging, test hooks and the change marker (`TouchChanged`) are left out.
pub mod Settle
pub mod Unique
use devvm.Prelude.{
  ℕ, suc, ◌+◌, Bool, true, false, not, ◌&&◌, ◌||◌, List, [], ◌∷◌, ◌++◌, Option, none, some, ltb,
  leb, ◌==◌, if◌then◌else◌, is_empty, keep, length,
}
use devvm.Session.Owner.{
  Owner, conf, ttl, connection, is_conf, is_ttl, same, delete_owner, reject_owners,
}
use devvm.Session.Fwd.{Closer, Fwd, is_none, unheld, finish_binding, Forward, wire}
use devvm.Session.Table.{Table, find, put, erase, Ref, held, ref_of}

-- How a transport carries the guest's events (`carriesEventsLocked`): a hub relay by the `bridge`
-- its daemon echoed, an `eventCarrier` by `hasEvents`, any other by a non-nil `events()`.
pub data Carrier : Type 0 where
  hub_relay : Bool → Carrier
  event_carrier : Bool → Carrier
  plain : Bool → Carrier

pub record Transport : Type 0 where
  pub id : ℕ
  pub carrier : Carrier

pub data State : Type 0 where
  up : State
  reconnecting : State

-- A session (`sess`): its number, and whether a relay holds it.
pub record Sess : Type 0 where
  pub id : ℕ
  pub relay : Bool

-- `next_fwd` numbers the forwards' objects.
pub record Daemon : Type 0 where
  pub tr : Option Transport
  pub forwards : Table
  pub state : State
  pub sessions : List Sess
  pub subs : List Sess
  pub next_conn : ℕ
  pub opens : List ℕ
  pub stopping : Bool
  pub kicked : Bool
  pub next_fwd : ℕ
  pub closed : List Closer
  pub hung_up : List ℕ

abbrev pub is_up : State → Bool
is_up up = true
is_up reconnecting = false

-- `newDaemon`, on a transport that is already connected.
unfoldable pub new_daemon : Transport → Daemon
new_daemon tr = record {
  tr = some tr;
  forwards = [];
  state = up;
  sessions = [];
  subs = [];
  next_conn = 0;
  opens = [];
  stopping = false;
  kicked = false;
  next_fwd = 0;
  closed = [];
  hung_up = [];
}

-- `d.sessions[id]`.
unfoldable pub session : ℕ → List Sess → Option Sess
session i [] = none
session i (s ∷ ss) = if s.id == i then some s else session i ss

-- `removeSess`.
unfoldable pub remove_sess : ℕ → List Sess → List Sess
remove_sess i = keep (λ s. not (s.id == i))

close_one : Option Closer → List Closer → List Closer
close_one none cs = cs
close_one (some c) cs = c ∷ cs

-- `settleLocked`.
unfoldable pub settle_held : Option Fwd → Table → Table
settle_held none fs = fs
settle_held (some f) fs = if unheld f then erase f.guest fs else put (finish_binding f) fs

unfoldable pub settle : Ref → Table → Table
unfolding settle_held
settle r fs = settle_held (held r fs) fs

-- `releaseLocked`, for a forward of the map: whether it goes.
unfoldable pub released : Fwd → Bool
released f = unheld f && not f.binding

-- `dropOwnersLocked`: the forwards that stay, and the closers to close.
unfoldable pub drop_owners : (Owner → ℕ → Bool) → Table → Table × List Closer
unfolding released close_one
drop_owners match [] = ([], [])
drop_owners match (f ∷ fs) =
    let rest = drop_owners match fs in
    let g = record f { owners = reject_owners match f.owners } in
    if released g then (rest.0, close_one g.closer rest.1) else (g ∷ rest.0, rest.1)

-- `dropOwners`.
unfoldable pub drop_matching : (Owner → ℕ → Bool) → Daemon → Daemon
drop_matching match d =
    let r = drop_owners match d.forwards in record d { forwards = r.0; closed = r.1 ++ d.closed }

-- `expireTTL`, at the time `now`.
abbrev pub expired : ℕ → Owner → ℕ → Bool
expired now o e = is_ttl o && not (e == 0) && leb e now

unfoldable pub expire_ttl : ℕ → Daemon → Daemon
unfolding drop_matching
expire_ttl now d = drop_matching (expired now) d

-- `remove`: whether the forward existed, and what survives.
pub data Removed : Type 0 where
  absent : Removed
  survives : Forward → Removed
  gone : Removed

unfoldable pub remove_from : Owner → Fwd → Daemon → Daemon × Removed
unfolding released close_one
remove_from own f d =
    let g = record f { owners = delete_owner own f.owners } in
    if not (unheld g)
    then (record d { forwards = put g d.forwards }, survives (wire g))
    else if released g
    then (
      record d { forwards = erase g.guest d.forwards; closed = close_one g.closer d.closed },
      gone,
    )
    else (record d { forwards = put g d.forwards }, gone)

unfoldable pub remove : ℕ → Owner → Daemon → Daemon × Removed
unfolding remove_from
remove guest own d = elim (find guest d.forwards) [
  | none ↦ (d, absent)
  | some f ↦ remove_from own f d
]

-- `heldLocked`: how many forwards some owner holds.
unfoldable pub held_count : Table → ℕ
held_count fs = length (keep (λ f. not (unheld f)) fs)

-- `idleNow`.
unfoldable pub idle_now : Daemon → Bool
idle_now d = held_count d.forwards == 0 && length d.sessions == 0

-- `down`: whether the daemon stops. What it lists is `list`.
unfoldable pub down : Daemon → Daemon × Bool
unfolding drop_matching idle_now
down d =
    let e = drop_matching (λ o x. is_conf o) d in
    if idle_now e then (record e { stopping = true }, true) else (e, false)

-- `detachLocked`: every forward is pending, and there is no transport.
unfoldable pub detach_all : Table → Table
detach_all [] = []
detach_all (f ∷ fs) = record f { closer = none } ∷ detach_all fs

unfoldable pub detach : Daemon → Daemon
detach d = record d { forwards = detach_all d.forwards; tr = none }

-- Whether session `c` is registered, and is a relay's (`relaySessionsLocked`).
abbrev pub is_relay : List Sess → ℕ → Bool
is_relay ss c = elim (session c ss) [ none ↦ false | some s ↦ s.relay ]

-- What a relay session owns.
abbrev pub owned_by_relay : List Sess → Owner → ℕ → Bool
owned_by_relay ss (connection c) e = is_relay ss c
owned_by_relay ss _ e = false

abbrev pub sess_ids : List Sess → List ℕ
sess_ids [] = []
sess_ids (s ∷ ss) = s.id ∷ sess_ids ss

-- `onDead`. The closers of the forwards that relays held are not closed: the transport's close
-- drops them.
unfoldable pub on_dead : Daemon → Daemon
unfolding detach
on_dead d =
    let r = drop_owners (owned_by_relay d.sessions) d.forwards in
    detach (record d {
      state = reconnecting;
      sessions = keep (λ s. not s.relay) d.sessions;
      subs = keep (λ s. not (is_relay d.sessions s.id)) d.subs;
      forwards = r.0;
      hung_up = sess_ids (keep (λ s. s.relay) d.sessions) ++ d.hung_up;
    })
