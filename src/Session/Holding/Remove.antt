-- ===== src/Session/Holding/Remove.antt =====
-- internal/session/daemon.go: whose hold `remove` drops.
use devvm.Prelude.{
  ℕ, true, false, ◌≡◌, inl, inr, refl, sym, ◌∙◌, ap, [], ◌∷◌, none, some, arith, ◌==◌, if_rule,
  Bool-cases, Option-cases, not,
}
use devvm.Session.Owner.{Owner, Owners, same, expiry_of, delete_owner}
use devvm.Session.Fwd.{Fwd, unheld}
use devvm.Session.Table.{Table, find, put, erase}
use devvm.Session.Table.Find.{find-put, find-erase}
use devvm.Session.Table.Rules.{find-guest}
use devvm.Session.Daemon.{Daemon, Removed, released, remove, remove_from}
use devvm.Session.Holding.{holding, held_by, same-eq, expiry_of-empty}

same-apart : (p own o : Owner) → same p own ≡ true → same own o ≡ false → same p o ≡ false
same-apart p own o e h = rw (same-eq p own e) h

pub expiry_of-delete_owner :
    (own o : Owner) (m : Owners)
    → same own o ≡ false
    → expiry_of o (delete_owner own m) ≡ expiry_of o m
unfolding expiry_of delete_owner
expiry_of-delete_owner own o [] h = refl
expiry_of-delete_owner own o ((p, x) ∷ m) h = elim (Bool-cases (same p own)) [
  | inl e ↦ rw (e, same-apart p own o e h) refl
  | inr e ↦ elim (Bool-cases (same p o)) [
    | inl k ↦ rw (e, k) refl
    | inr k ↦ rw (e, k) (expiry_of-delete_owner own o m h)
  ]
]

-- Writing a record back under its guest port changes what is held there, and nowhere else.
pub holding-put :
    (g : ℕ) (o : Owner) (f : Fwd) (fs : Table)
    → held_by o (some f) ≡ holding f.guest o fs
    → holding g o (put f fs) ≡ holding g o fs
unfolding holding
holding-put g o f fs h = elim (Bool-cases (f.guest == g)) [
  | inl e ↦ rw (find-put g f fs, e) (h ∙ ap (λ x. held_by o (find x fs)) (ground arith))
  | inr e ↦ rw (find-put g f fs, e) refl
]

pub holding-erase :
    (g h : ℕ) (o : Owner) (fs : Table)
    → holding h o fs ≡ none
    → holding g o (erase h fs) ≡ holding g o fs
unfolding holding
holding-erase g h o fs e = elim (Bool-cases (h == g)) [
  | inl k ↦ rw (find-erase g h fs, k) (sym e ∙ ap (λ x. held_by o (find x fs)) (ground arith))
  | inr k ↦ rw (find-erase g h fs, k) refl
]

remove_from-holding :
    (g : ℕ) (own o : Owner) (f : Fwd) (d : Daemon)
    → find f.guest d.forwards ≡ some f
    → same own o ≡ false
    → holding g o (remove_from own f d).0.forwards ≡ holding g o d.forwards
unfolding remove_from holding
remove_from-holding g own o f d e h =
    let k = record f { owners = delete_owner own f.owners } in
    let kept : expiry_of o k.owners ≡ holding f.guest o d.forwards =
      expiry_of-delete_owner own o f.owners h ∙ sym (ap (held_by o) e) in
    let P : Daemon × Removed → Type 0 = λ r. holding g o r.0.forwards ≡ holding g o d.forwards in
    if_rule P (not (unheld k)) (λ n. holding-put g o k d.forwards kept)
      (λ n.
        if_rule P (released k)
          (λ r.
            holding-erase g f.guest o d.forwards
              (sym kept ∙ expiry_of-empty o k.owners (ground arith)))
          (λ r. holding-put g o k d.forwards kept))

-- A removal for one owner leaves every other owner's hold of every forward as it is.
pub remove-holding :
    (guest g : ℕ) (own o : Owner) (d : Daemon)
    → same own o ≡ false
    → holding g o (remove guest own d).0.forwards ≡ holding g o d.forwards
unfolding remove
remove-holding guest g own o d h = elim (Option-cases (find guest d.forwards)) [
  | inl k ↦ rw (k, remove) refl
  | inr (f, k) ↦
      let at = ap (λ x. find x d.forwards) (find-guest guest d.forwards {f = f} k) ∙ k in
      rw (k, remove) (remove_from-holding g own o f d at h)
]
