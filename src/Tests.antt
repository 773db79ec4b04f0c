-- ===== src/Tests.antt =====
-- Runs of the model on small inputs, and each theorem with hypotheses at an input that meets them.
pub mod Bridge
pub mod Config
pub mod Edit
pub mod Reach
pub mod Reconnect
pub mod Clock
pub mod Cli
pub mod Ledger
pub mod Templates
pub mod Upstream
use devvm.Prelude.{ℕ, ◌≤◌, true, false, ◌≡◌, ◌↔◌, refl, List, [], ◌∷◌, some, arith, keep, length}
use Prim.Native.Nat.{compare, Ordering}
use devvm.Session.Owner.{ttl}
use devvm.Session.Fwd.{Closer}
use devvm.Session.Bind.{
  Forwarder, opened, refused, port_busy, bind, bind_from, bound, unbound, exhausted, contention,
}
use devvm.Session.Bind.Range.{FirstFree, bind-FirstFree, bind_all_busy, bind_exact_port}
use devvm.Session.Daemon.{Transport, plain, new_daemon}
use devvm.Session.RateLimit.{
  allow_open, after_opens, granted, granted-le-limit, allow_open-refused, in_window, recent,
}
use devvm.Session.System.{
  Event, adds, dies, installs, rebinds_from, finishes, comes_up, run, start, step,
}
use devvm.Session.System.Keeps.{AllSound}
use devvm.Session.System.Reach.{run-start-AllSound}
use devvm.Session.System.Advance.{Keeps}
use devvm.Session.System.Exact.{SysSlots, run-start-SysSlots, exact_never_moves}

-- Host ports below 3002 are taken; a forward of another port opens.
abbrev pub some_busy : Forwarder
some_busy h g = elim (compare h 3002) [
  | Ordering.lt ↦ refused port_busy
  | _ ↦ opened (record { transport = 0; serial = h; v6 = true })
]

abbrev all_busy : Forwarder
all_busy h g = refused port_busy

abbrev pub opened_at : ℕ → Closer
opened_at h = record { transport = 0; serial = h; v6 = true }

bind_bumps : bind (some some_busy) 3000 8080 false ≡ bound 3002 (opened_at 3002) true
unfolding bind bind_from
bind_bumps = refl

bind-FirstFree_example : FirstFree some_busy 8080 3000 20 3002 (opened_at 3002) × (true ≡ true)
bind-FirstFree_example =
    (bind-FirstFree some_busy 8080 3000 3002 (opened_at 3002) true).0 bind_bumps

bind_all_busy_example :
    (bind (some all_busy) 3000 8080 false ≡ unbound (exhausted 8080 3000))
    × (contention (exhausted 8080 3000) ≡ true)
bind_all_busy_example = bind_all_busy all_busy 8080 3000 (λ p a b. refl)

abbrev pub plain_wire : Transport
plain_wire = record { id = 0; carrier = plain true }

-- Opens at each of the first twelve seconds.
abbrev seconds : List ℕ
seconds = 1 ∷ 2 ∷ 3 ∷ 4 ∷ 5 ∷ 6 ∷ 7 ∷ 8 ∷ 9 ∷ 10 ∷ 11 ∷ 12 ∷ []

ten_granted : granted seconds (new_daemon plain_wire) ≡ 1 ∷ 2 ∷ 3 ∷ 4 ∷ 5 ∷ 6 ∷ 7 ∷ 8 ∷ 9 ∷ 10 ∷ []
unfolding granted allow_open new_daemon
ten_granted = refl

granted-le-limit_example :
    length (keep (in_window 1) (granted seconds (new_daemon plain_wire))) ≤ 10
granted-le-limit_example = granted-le-limit plain_wire 1 seconds (omega arith) 1

allow_open-refused_example :
    ((allow_open 13 (after_opens seconds (new_daemon plain_wire))).1 ≡ false)
    ↔ (10 ≤ length (keep (recent 13) (granted seconds (new_daemon plain_wire))))
allow_open-refused_example = allow_open-refused plain_wire 1 seconds (omega arith) 13 (omega arith)

-- An exact forward is bound, its transport dies, and the next one re-binds it.
abbrev outage : List Event
outage =
    adds
      (record { pref = 3002; guest = 8080; exact = true; own = ttl; expires = 600; capped = true })
    ∷ finishes 0 some_busy false
    ∷ dies
    ∷ installs (plain true)
    ∷ rebinds_from []
    ∷ finishes 0 some_busy false
    ∷ comes_up
    ∷ []

run-start-AllSound_example : AllSound (run (start (plain true)) outage).daemon
run-start-AllSound_example = run-start-AllSound (plain true) outage

run-start-SysSlots_example : SysSlots (run (start (plain true)) outage)
run-start-SysSlots_example = run-start-SysSlots (plain true) outage

exact_never_moves_example :
    Keeps
      ((run (start (plain true)) outage).daemon).forwards
      ((step (run (start (plain true)) outage) dies).daemon).forwards
exact_never_moves_example = exact_never_moves (plain true) outage dies
