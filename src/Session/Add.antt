-- ===== src/Session/Add.antt =====
-- internal/session/daemon.go: the first critical section of `addWith`; internal/session/bridge.go:
-- the ephemeral cap, which is the one `admit` that `addWith` is ever given. A critical section under
-- `d.mu` is one function of the daemon's state. What follows a claim is in Session/Add/Binding: the
-- bind runs between two critical sections, outside the lock.
pub mod Binding
use devvm.Prelude.{
  ℕ, suc, Bool, true, false, not, ◌&&◌, ◌||◌, List, [], ◌∷◌, Option, none, some, ltb, ◌==◌,
  if◌then◌else◌, keep, length,
}
use devvm.Session.Owner.{Owner, conf, ttl, connection, Owners, add_owner, delete_owner}
use devvm.Session.Fwd.{Closer, Fwd, is_none, unheld, new_fwd, start_binding}
use devvm.Session.Table.{Table, find, put, erase, Ref, held, ref_of}
use devvm.Session.Bind.{Forwarder, BindErr, BindRes, bound, unbound, bind}
use devvm.Session.Daemon.{Transport, Sess, is_up, Daemon, session, settle}

-- The arguments of `addWith`. `capped` says that `opts.admit` is set (to `ephemeralRoomLocked`).
pub record AddReq : Type 0 where
  pub pref : ℕ
  pub guest : ℕ
  pub exact : Bool
  pub own : Owner
  pub expires : ℕ
  pub capped : Bool

pub record AddResult : Type 0 where
  pub host : ℕ
  pub bumped : Bool
  pub pending : Bool
  pub added : Bool

pub data AddErr : Type 0 where
  subscriber_gone : AddErr
  admit_refused : AddErr
  port_taken : ℕ → ℕ → ℕ → AddErr
  bind_failed : BindErr → AddErr
  removed_meanwhile : ℕ → AddErr

pub data Answer : Type 0 where
  added_ok : AddResult → Answer
  add_failed : AddErr → Answer

-- A claim on a slot: what `bindSlot` is called with.
pub record Claim : Type 0 where
  pub ref : Ref
  pub transport : ℕ
  pub own : Owner
  pub added : Bool
  pub target : ℕ
  pub exact : Bool

-- How the first critical section of `addWith` ends: with an answer, waiting for the binder of the
-- slot, or with a claim to bind.
pub data AddStep : Type 0 where
  answered : Answer → AddStep
  waiting : ℕ → AddStep
  claimed : Claim → AddStep

-- `bridgeHeldLocked`.
abbrev pub is_local : List Sess → ℕ → Bool
is_local ss c = elim (session c ss) [ none ↦ false | some s ↦ not s.relay ]

unfoldable pub bridge_held : List Sess → Owners → Bool → Bool
bridge_held ss [] seen = seen
bridge_held ss ((conf, e) ∷ m) seen = false
bridge_held ss ((ttl, e) ∷ m) seen = bridge_held ss m true
bridge_held ss ((connection c, e) ∷ m) seen = bridge_held ss m (seen || is_local ss c)

abbrev pub max_ephemeral : ℕ
max_ephemeral = 20

unfoldable pub ephemerals : List Sess → Table → ℕ
ephemerals ss fs = length (keep (λ f. bridge_held ss f.owners false) fs)

-- `ephemeralRoomLocked`.
unfoldable pub ephemeral_room : Daemon → Bool
unfolding ephemerals
ephemeral_room d = ltb (ephemerals d.sessions d.forwards) max_ephemeral

-- The transport that a new bind can use: none while reconnecting, or after a shutdown took it.
abbrev pub usable : Daemon → Option Transport
usable d = if is_up d.state then d.tr else none

-- A connection owner whose session is not registered.
abbrev pub orphan : List Sess → Owner → Bool
orphan ss (connection c) = is_none (session c ss)
orphan ss _ = false

abbrev answer : Fwd → Bool → AddStep
answer f added =
    answered (
      added_ok
        (record { host = f.host; bumped = false; pending = is_none f.closer; added = added }))

claim : Transport → Fwd → AddReq → Bool → ℕ → Bool → Daemon → Daemon × AddStep
claim tr f q added target exact d = (
  record d { forwards = put (start_binding f) d.forwards },
  claimed (record {
    ref = ref_of f;
    transport = tr.id;
    own = q.own;
    added = added;
    target = target;
    exact = exact;
  }),
)

-- `!ok`: the guest port has no forward.
unfoldable pub add_new : AddReq → Option Transport → Daemon → Daemon × AddStep
unfolding claim
add_new q none d =
    let f = new_fwd d.next_fwd q.pref q.guest q.exact q.own q.expires in
    (record d { forwards = put f d.forwards; next_fwd = suc d.next_fwd }, answer f true)
add_new q (some tr) d =
    let f = new_fwd d.next_fwd q.pref q.guest false q.own q.expires in
    claim tr f q true q.pref q.exact (record d { next_fwd = suc d.next_fwd })

-- A forward that is bound, or that no transport can bind now: the owner is recorded.
abbrev reuse : AddReq → Fwd → Daemon → Daemon × AddStep
reuse q f d =
    let r = add_owner q.own q.expires f.owners in
    let g = record f { owners = r.0; exact = f.exact || q.exact } in
    (record d { forwards = put g d.forwards }, answer g r.1)

-- A forward left pending while the transport is up.
rebind : AddReq → Fwd → Transport → Daemon → Daemon × AddStep
unfolding claim
rebind q f tr d =
    let r = add_owner q.own q.expires f.owners in
    claim tr (record f { owners = r.0 }) q r.1 (if f.exact then f.host else q.pref)
      (f.exact || q.exact) d

unfoldable pub add_old : AddReq → Fwd → Option Closer → Option Transport → Daemon → Daemon × AddStep
unfolding rebind
add_old q f (some c) tr d = reuse q f d
add_old q f none none d = reuse q f d
add_old q f none (some tr) d = rebind q f tr d

-- The first critical section of `addWith`, from the lookup of the guest port on.
unfoldable pub add_at : AddReq → Option Fwd → Daemon → Daemon × AddStep
unfolding add_new add_old
add_at q none d =
    if q.capped && not (ephemeral_room d)
    then (d, answered (add_failed admit_refused))
    else add_new q (usable d) d
add_at q (some f) d =
    if f.binding
    then (d, waiting f.id)
    else if q.exact && not (f.host == q.pref)
    then (d, answered (add_failed (port_taken q.pref q.guest f.host)))
    else add_old q f f.closer (usable d) d

unfoldable pub add_section : AddReq → Daemon → Daemon × AddStep
unfolding add_at
add_section q d =
    if orphan d.sessions q.own
    then (d, answered (add_failed subscriber_gone))
    else add_at q (find q.guest d.forwards) d
