-- ===== src/Session/Ledger/Removals.antt =====
-- What an expiry and a removal leave of the holds.
use devvm.Prelude.{
  ℕ, true, false, not, ◌≡◌, inl, inr, refl, ◌∙◌, ap, Option, none, some, ◌==◌, if_rule, arith,
  Option-cases,
}
use devvm.Session.Owner.{Owner, Owners, same, expiry_of, delete_owner}
use devvm.Session.Fwd.{Fwd, unheld}
use devvm.Session.Table.{Table, find, put, erase, IsMap}
use devvm.Session.Table.Find.{find-put, find-erase}
use devvm.Session.Table.Rules.{find-guest, All-find}
use devvm.Session.Daemon.{
  Daemon, expired, expire_ttl, drop_matching, remove, remove_from, Removed, released,
}
use devvm.Session.Holding.{holding, held_by, same-eq, holding-drop, reject_in}
use devvm.Session.Owner.Once.{kept_by, expiry_of-reject_owners}
use devvm.Session.System.Sound.{Sound}
use devvm.Session.System.Keeps.{AllSound}
use devvm.Session.Ledger.{unexpired}
use devvm.Session.Ledger.Sections.{holding-taken}

-- Exactly what the time has run out for goes.
pub expire_ttl-holding :
    (now : ℕ) (d : Daemon) (g : ℕ) (o : Owner)
    → IsMap d.forwards
    → AllSound d
    → holding g o (expire_ttl now d).forwards ≡ unexpired now o (holding g o d.forwards)
unfolding expire_ttl drop_matching holding
expire_ttl-holding now d g o u sound =
    holding-drop (expired now) g o d.forwards u ∙ left (find g d.forwards) refl
  where
    at : (m : Owners) → kept_by (expired now) o (expiry_of o m) ≡ unexpired now o (expiry_of o m)
    at m = over (expiry_of o m)
      where
        over : (x : Option ℕ) → kept_by (expired now) o x ≡ unexpired now o x
        over none = refl
        over (some e) = refl

    left :
        (x : Option Fwd)
        → find g d.forwards ≡ x
        → held_by o (reject_in (expired now) x) ≡ unexpired now o (held_by o x)
    left none h = refl
    left (some f) h =
        expiry_of-reject_owners (expired now) o f.owners
          (λ p e k. ap (λ y. expired now y e) (same-eq p o k))
          (All-find (Sound d.sessions d.tr) g d.forwards sound h).once
        ∙ at f.owners

-- A removal touches its own guest port.
pub remove-other :
    (guest g : ℕ) (own o : Owner) (d : Daemon)
    → (guest == g) ≡ false
    → holding g o (remove guest own d).0.forwards ≡ holding g o d.forwards
unfolding remove remove_from holding
remove-other guest g own o d miss = elim (Option-cases (find guest d.forwards)) [
  | inl k ↦ rw (k, remove) refl
  | inr (f, k) ↦
      let at : f.guest ≡ guest = find-guest guest d.forwards {f = f} k in
      let far : (f.guest == g) ≡ false = rw at miss in
      let left = record f { owners = delete_owner own f.owners } in
      let P : Daemon × Removed → Type 0 = λ r. holding g o r.0.forwards ≡ holding g o d.forwards in
      let over : holding g o (put left d.forwards) ≡ holding g o d.forwards =
        ap (held_by o) {y = find g d.forwards} (find-put g left d.forwards ∙ rw far refl) in
      let out : holding g o (erase f.guest d.forwards) ≡ holding g o d.forwards =
        ap (held_by o) {y = find g d.forwards} (find-erase g f.guest d.forwards ∙ rw far refl) in
      rw (k, remove)
        (if_rule P (not (unheld left)) (λ e. over)
          (λ e. if_rule P (released left) (λ e'. out) (λ e'. over)))
]

absent_at :
    (guest g : ℕ) (o : Owner) (fs : Table)
    → (guest == g) ≡ true
    → find guest fs ≡ none
    → holding g o fs ≡ none
unfolding holding
absent_at guest g o fs hit k =
    ap (held_by o) {y = none} (ap (λ (n : ℕ). find n fs) {y = guest} (ground arith) ∙ k)

-- And there it takes the hold that it names.
pub remove-taken :
    (guest g : ℕ) (own o : Owner) (d : Daemon)
    → (guest == g) ≡ true
    → same own o ≡ true
    → AllSound d
    → holding g o (remove guest own d).0.forwards ≡ none
unfolding remove remove_from
remove-taken guest g own o d hit s sound = elim (Option-cases (find guest d.forwards)) [
  | inl k ↦ let here : holding g o d.forwards ≡ none = nobody k in rw (k, remove) here
  | inr (f, k) ↦
      let at : f.guest ≡ guest = find-guest guest d.forwards {f = f} k in
      let once = (All-find (Sound d.sessions d.tr) guest d.forwards sound k).once in
      let taken = holding-taken g own o f d.forwards (rw at hit) s once in
      let left = record f { owners = delete_owner own f.owners } in
      let P : Daemon × Removed → Type 0 = λ r. holding g o r.0.forwards ≡ none in
      rw (k, remove)
        (if_rule P (not (unheld left)) (λ e. taken.0)
          (λ e. if_rule P (released left) (λ e'. taken.1) (λ e'. taken.0)))
]
  where
    nobody : find guest d.forwards ≡ none → holding g o d.forwards ≡ none
    nobody k = absent_at guest g o d.forwards hit k
