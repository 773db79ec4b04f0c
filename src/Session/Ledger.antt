-- ===== src/Session/Ledger.antt =====
-- What the daemon promises to those who hold forwards, apart from how it binds them: a ledger of
-- holds (guest port and owner to expiry), which each event may change where it says, and nowhere
-- else. The events are those of Session/System.
pub mod Grants
pub mod Sections
pub mod Removals
pub mod Steps
use devvm.Prelude.{
  ℕ, Bool, true, false, not, ◌&&◌, ◌≡◌, ◌⊎◌, Option, none, some, ltb, leb, ◌==◌, if◌then◌else◌,
  List,
}
use devvm.Session.Owner.{Owner, connection, same, is_conf, is_ttl}
use devvm.Session.Daemon.{owned_by_relay}
use devvm.Session.Add.{AddReq, Claim}
use devvm.Session.System.{
  Sys, Event, Task, adding, rebinding, take_task, opens_session, closes_session, subscribes,
  unsubscribes, adds, removes, downs, expires_ttl, dies, installs, tears_down, comes_up, clears,
  rebinds_from, finishes, gives_up,
}

-- A hold that is asked for: a later expiry extends one that is there, and none shortens it.
abbrev pub grant : ℕ → Option ℕ → Option ℕ
grant e none = some e
grant e (some x) = some (if ltb x e then e else x)

-- An add that took its claim with a new owner, and found no port.
abbrev pub IsWithdrawn : Claim → ℕ → Owner → Type 0
IsWithdrawn c g o = (c.added ≡ true) × (g ≡ c.ref.guest) × (o ≡ c.own)

abbrev pub IsWithdrawnTask : Task → ℕ → Owner → Type 0
IsWithdrawnTask (adding c) g o = IsWithdrawn c g o
IsWithdrawnTask (rebinding j t) g o = ⊥

-- A hold at the time `now`: a ttl that is over is none.
abbrev pub unexpired : ℕ → Owner → Option ℕ → Option ℕ
unexpired now o none = none
unexpired now o (some e) = if is_ttl o && not (e == 0) && leb e now then none else some e

-- How the hold `x` of a guest port by an owner may become `y` by an event.
unfoldable pub Moves : Sys → Event → ℕ → Owner → Option ℕ → Option ℕ → Type 0
Moves s (adds q) g o x y = (y ≡ x) ⊎ ((g ≡ q.guest) × (o ≡ q.own) × (y ≡ grant q.expires x))
Moves s (removes guest own) g o x y = y ≡ (if guest == g && same own o then none else x)
Moves s (closes_session i) g o x y = y ≡ (if same o (connection i) then none else x)
Moves s downs g o x y = y ≡ (if is_conf o then none else x)
Moves s dies g o x y = y ≡ (if owned_by_relay (s.daemon).sessions o 0 then none else x)
Moves s (expires_ttl now) g o x y = y ≡ unexpired now o x
Moves s clears g o x y = y ≡ none
Moves s (finishes k forward dead) g o x y =
    (y ≡ x)
    ⊎ ((t : Task) × (rest : List Task) × (take_task k s.tasks ≡ some (t, rest))
        × IsWithdrawnTask t g o
        × (y ≡ none))
Moves s (opens_session relay) g o x y = y ≡ x
Moves s (subscribes u) g o x y = y ≡ x
Moves s (unsubscribes u) g o x y = y ≡ x
Moves s (installs c) g o x y = y ≡ x
Moves s tears_down g o x y = y ≡ x
Moves s comes_up g o x y = y ≡ x
Moves s (rebinds_from tried) g o x y = y ≡ x
Moves s (gives_up k) g o x y = y ≡ x
