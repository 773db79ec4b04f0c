-- ===== src/Session/Daemon/Settle.antt =====
-- What `settleLocked` leaves under the guest port of the slot, and under the others.
use devvm.Prelude.{
  false, ◌≡◌, refl, sym, ◌∙◌, Option, none, some, arith, Bool-cases, inl, inr, if◌then◌else◌,
}
use devvm.Session.Fwd.{Fwd, unheld, finish_binding}
use devvm.Session.Table.{Table, Ref, held}
use devvm.Session.Table.Rules.{find-guest, held-find}
use devvm.Session.Table.Find.{held-put_self, held-erase}
use devvm.Session.Daemon.{settle, settle_held}

-- What the slot's own reference finds then.
unfoldable pub after_settle : Option Fwd → Option Fwd
after_settle none = none
after_settle (some f) = if unheld f then none else some (finish_binding f)

held-settle_held :
    (r : Ref) (o : Option Fwd) (fs : Table)
    → held r fs ≡ o
    → held r (settle_held o fs) ≡ after_settle o
unfolding settle_held after_settle
held-settle_held r none fs e = e
held-settle_held r (some f) fs e =
    let (found, i) = held-find r fs e in
    let g : f.guest ≡ r.guest = find-guest r.guest fs found in
    elim (Bool-cases (unheld f)) [
      | inl u ↦ rw u (rw g (held-erase r fs))
      | inr u ↦ rw u (held-put_self r (finish_binding f) fs g i)
    ]

pub held-settle : (r : Ref) (fs : Table) → held r (settle r fs) ≡ after_settle (held r fs)
unfolding settle
held-settle r fs = held-settle_held r (held r fs) fs refl

-- The slot, if it is still there, is nobody's to bind, and somebody's.
pub settled-idle :
    (r : Ref) (fs : Table) {f : Fwd}
    → held r (settle r fs) ≡ some f
    → (f.binding ≡ false) × (unheld f ≡ false)
unfolding after_settle
settled-idle r fs {f} e = go (held r fs) (sym (held-settle r fs) ∙ e)
  where
    go : (o : Option Fwd) → after_settle o ≡ some f → (f.binding ≡ false) × (unheld f ≡ false)
    go none h = cc
    go (some x) h = ground arith
