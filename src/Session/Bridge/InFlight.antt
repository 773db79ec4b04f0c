-- ===== src/Session/Bridge/InFlight.antt =====
-- The bind of internal/session/bridge.go among the other goroutines: while its forward is asked for,
-- any critical sections may run.
use devvm.Prelude.{
  ℕ, Bool, true, ◌≡◌, inl, inr, refl, List, ◌∷◌, some, ==_refl, arith, Option-cases,
}
use devvm.Session.Fwd.{Fwd}
use devvm.Session.Table.{Ref, Table, held, ref_of}
use devvm.Session.Table.Rules.{All-held, held-find, find-guest}
use devvm.Session.Bind.{Forwarder}
use devvm.Session.Daemon.{Carrier, Sess, Daemon}
use devvm.Session.Add.{AddStep, answered, waiting, claimed, Claim, add_section}
use devvm.Session.Add.Binding.{Meanwhile}
use devvm.Session.Bridge.{bridge_request, bridge_bind, bridged}
use devvm.Session.Bridge.Exact.{IsUnbound, LeavesUnbound, AtClaim, IsOrderly, bridge_bind_orderly}
use devvm.Session.Rebind.Slots.{held-own_guest}
use devvm.Session.System.{Sys, Event, Task, adding, take_task, adds, run, start}
use devvm.Session.System.Sound.{Sound}
use devvm.Session.System.Keeps.{AllSound}
use devvm.Session.System.Reach.{run-AllSound, run-start-AllSound}
use devvm.Session.System.Slots.{same_ref, ind, claims}
use devvm.Session.System.Finish.{take-Slots}
use devvm.Session.System.Exact.{SysSlots, run-SysSlots, run-start-SysSlots}

-- The task of the claim, where there is one, is still to come to its end.
abbrev pub IsInFlight : Daemon × AddStep → List Task → Type 0
IsInFlight (d, answered a) ts = Unit
IsInFlight (d, waiting i) ts = Unit
IsInFlight (d, claimed c) ts =
    (k : ℕ) × (rest : List Task) × (take_task k ts ≡ some (adding c, rest))

held-same_ref : (r : Ref) (fs : Table) (f : Fwd) → held r fs ≡ some f → same_ref r (ref_of f) ≡ true
held-same_ref r fs f h =
    let found = held-find r fs {f = f} h in
    let guest : f.guest ≡ r.guest = find-guest r.guest fs {f = f} found.0 in
    rw (guest, found.1, ==_refl r.guest, ==_refl r.id) refl

-- Nobody binds the slot of an add in flight.
in_flight-IsUnbound :
    (s : Sys) (c : Claim) (k : ℕ) (rest : List Task)
    → SysSlots s
    → AllSound s.daemon
    → take_task k s.tasks ≡ some (adding c, rest)
    → IsUnbound (held c.ref (s.daemon).forwards)
in_flight-IsUnbound s c k rest slots sound e =
    let fs = (s.daemon).forwards in
    elim (Option-cases (held c.ref fs)) [
      | inl h ↦ rw h tt
      | inr (f, h) ↦
          let taken = take-Slots k s.tasks (adding c) rest e slots in
          let one : claims (ref_of f) (adding c ∷ rest) ≡ ind f.binding =
            taken.one f.guest f (held-own_guest c.ref fs {f = f} h) in
          let own = held-same_ref c.ref fs f h in
          let busy : f.binding ≡ true = ground arith in
          rw h ((All-held (Sound (s.daemon).sessions (s.daemon).tr) c.ref fs sound h).unbound busy)
    ]

orderly :
    (m : Meanwhile) (s : Sys) (r : Daemon × AddStep)
    → SysSlots s
    → AllSound s.daemon
    → IsInFlight r s.tasks
    → AtClaim (λ c x. LeavesUnbound c.ref m.refused) r
    → IsOrderly (record m { binding = λ x. s.daemon }) r
orderly m s (d, answered a) slots sound f h = tt
orderly m s (d, waiting i) slots sound f h = tt
orderly m s (d, claimed c) slots sound (k, rest, e) h =
    (in_flight-IsUnbound s c k rest slots sound e, h)

-- The host port that the bridge binds for a redirect is the callback's own, whatever ports are
-- taken: a redirect_uri is not rewritten. This holds in any state that the daemon reaches, with any
-- critical sections of the other goroutines while the bind runs, deaths and restores of the
-- transport included, which leave the add itself in flight; on the condition that, where the
-- adoption is refused, nobody binds the slot until it is read again.
pub bridge_bind-exact :
    (w : Carrier) (before amid : List Event) (port : ℕ) (v6 : Bool) (sub : Sess) (now : ℕ)
    (forward : Forwarder) (dead : Bool) (m : Meanwhile) {e : Daemon} {host : ℕ}
    → let s = run (start w) before in
      let q = bridge_request port true now sub in
      let s' = run s (adds q ∷ amid) in
      IsInFlight (add_section q s.daemon) s'.tasks
      → AtClaim (λ c x. LeavesUnbound c.ref m.refused) (add_section q s.daemon)
      → bridge_bind port true v6 sub now forward dead
          (record m { binding = λ x. s'.daemon })
          s.daemon
        ≡ some (e, bridged host)
      → host ≡ port
bridge_bind-exact w before amid port v6 sub now forward dead m f h =
    let s = run (start w) before in
    let q = bridge_request port true now sub in
    let s' = run s (adds q ∷ amid) in
    bridge_bind_orderly port v6 sub now forward dead (record m { binding = λ x. s'.daemon })
      s.daemon
      (orderly m s' (add_section q s.daemon)
        (run-SysSlots s (adds q ∷ amid) (run-start-SysSlots w before))
        (run-AllSound s (adds q ∷ amid) (run-start-AllSound w before)) f h)
