-- ===== src/Session/Add/Binding.antt =====
-- internal/session/daemon.go: what `addWith` does behind its claim: `bindSlot`, from the result of its
-- bind on, with `adopt`; and the whole call, with what runs between its sections as an argument.
use devvm.Prelude.{
  ℕ, Bool, true, false, not, ◌&&◌, ◌||◌, ◌∷◌, Option, none, some, ◌==◌, if◌then◌else◌,
}
use devvm.Session.Owner.{delete_owner}
use devvm.Session.Fwd.{Closer, Fwd, is_none, unheld}
use devvm.Session.Table.{put, erase, Ref, held}
use devvm.Session.Bind.{Forwarder, BindErr, BindRes, bound, unbound, bind}
use devvm.Session.Daemon.{Transport, is_up, Daemon, settle}
use devvm.Session.Add.{
  AddReq, Answer, Claim, AddStep, add_section, bind_failed, removed_meanwhile, added_ok, add_failed,
  answered, waiting, claimed,
}

-- `adopt`: whether the bind won.
abbrev pub same_transport : ℕ → Option Transport → Bool
same_transport t none = false
same_transport t (some tr) = tr.id == t

abbrev pub adoptable : ℕ → Option Fwd → Daemon → Option Fwd
adoptable t none d = none
adoptable t (some f) d = if is_none f.closer && same_transport t d.tr then some f else none

unfoldable pub adopt_into : Option Fwd → ℕ → Closer → Bool → Daemon → Daemon × Bool
adopt_into none host c exact d = (record d { closed = c ∷ d.closed }, false)
adopt_into (some f) host c exact d = (
  record d {
    forwards =
        put (record f { host = host; closer = some c; v6 = c.v6; exact = f.exact || exact })
          d.forwards;
  },
  true,
)

unfoldable pub adopt : ℕ → Ref → ℕ → Closer → Bool → Daemon → Daemon × Bool
unfolding adopt_into
adopt t r host c exact d =
    let e = record d { forwards = settle r d.forwards } in
    adopt_into (adoptable t (held r e.forwards) e) host c exact e

-- `bindSlot` after a failed bind; `dead` is `transportDead(tr)` at that moment.
unfoldable pub bind_lost : Claim → Bool → BindErr → Option Fwd → Daemon → Daemon × Answer
bind_lost c dead e none d = (d, add_failed (bind_failed e))
bind_lost c dead e (some f) d =
    let pending = is_none f.closer in
    if pending && (not (same_transport c.transport d.tr) || not (is_up d.state) || dead)
    then (d, added_ok (record { host = f.host; bumped = false; pending = true; added = c.added }))
    else if pending && c.added
    then (let g = record f { owners = delete_owner c.own f.owners } in
        (
          record d { forwards = if unheld g then erase f.guest d.forwards else put g d.forwards },
          add_failed (bind_failed e),
        ))
    else (d, add_failed (bind_failed e))

unfoldable pub bind_error : Claim → Bool → BindErr → Daemon → Daemon × Answer
unfolding bind_lost
bind_error c dead e d =
    let d' = record d { forwards = settle c.ref d.forwards } in
    bind_lost c dead e (held c.ref d'.forwards) d'

-- What `bindSlot` answers where `adopt` did not take its bind.
unfoldable pub outrun : Claim → Option Fwd → Answer
outrun c none = add_failed (removed_meanwhile c.ref.guest)
outrun c (some f) =
    added_ok (record { host = f.host; bumped = false; pending = is_none f.closer; added = c.added })

-- The section of `bindSlot` behind its bind, with what it answers; `none` where `adopt` did not take
-- the bind, and the slot is read again in a section of its own.
unfoldable pub bind_slot : Claim → Bool → BindRes → Daemon → Daemon × Option Answer
unfolding adopt bind_error
bind_slot c dead (unbound e) d = let r = bind_error c dead e d in (r.0, some r.1)
bind_slot c dead (bound host closer bumped) d =
    let r = adopt c.transport c.ref host closer c.exact d in
    (
      r.0,
      (if r.1
          then some
              (added_ok (record { host = host; bumped = bumped; pending = false; added = c.added }))
          else none),
    )

-- What the other goroutines do to the daemon between the sections of one call: while its bind runs,
-- and between a refused adoption and the second read; and, in `bridgeBind`, before the read of the
-- forward's [::1] side, and before the removal behind it.
pub record Meanwhile : Type 0 where
  pub binding : Daemon → Daemon
  pub refused : Daemon → Daemon
  pub answered : Daemon → Daemon
  pub checked : Daemon → Daemon

-- Nothing runs in between.
abbrev pub alone : Meanwhile
alone = record { binding = λ d. d; refused = λ d. d; answered = λ d. d; checked = λ d. d }

-- The second read of `bindSlot`, where there is one.
unfoldable pub reread : Meanwhile → Claim → Daemon × Option Answer → Daemon × Answer
unfolding outrun
reread m c (d, some a) = (d, a)
reread m c (d, none) = let e = m.refused d in (e, outrun c (held c.ref e.forwards))

-- A whole `addWith`: `none` where it waits for a binder, which is no part of this run.
unfoldable pub finish_add :
    Forwarder → Bool → Meanwhile → Daemon × AddStep → Option (Daemon × Answer)
unfolding bind_slot reread
finish_add forward dead m (d, answered a) = some (d, a)
finish_add forward dead m (d, waiting i) = none
finish_add forward dead m (d, claimed c) =
    some (
      reread m c
        (bind_slot c dead (bind (some forward) c.target c.ref.guest c.exact) (m.binding d)))

unfoldable pub add_with : AddReq → Forwarder → Bool → Meanwhile → Daemon → Option (Daemon × Answer)
unfolding finish_add add_section
add_with q forward dead m d = finish_add forward dead m (add_section q d)
