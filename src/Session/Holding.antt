-- ===== src/Session/Holding.antt =====
-- internal/session/daemon.go and daemon_session.go: who holds which forward, and what the
-- operations that drop owners (`remove`, `down`, `closeSession`, `expireTTL`) leave of it.
pub mod Remove
use devvm.Prelude.{
  ℕ, Bool, true, false, not, ◌≡◌, ◌⊎◌, inl, inr, refl, sym, ◌∙◌, ap, List, [], ◌∷◌, Option, none,
  some, arith, ◌==◌, ==_refl, if◌then◌else◌, subst, if_rule, Bool-cases, is_empty, All,
}
use devvm.Session.Owner.{
  Owner, conf, ttl, connection, Owners, same, expiry_of, delete_owner, reject_owners, is_conf,
}
use devvm.Session.Fwd.{Fwd, unheld}
use devvm.Session.Table.{Table, find, put, erase, IsMap, IsFree}
use devvm.Session.Table.Unique.{IsFree-find}
use devvm.Session.Table.Find.{find-put, find-erase}
use devvm.Session.Daemon.{
  Daemon, drop_owners, drop_matching, released, remove, remove_from, down, idle_now, detach,
  detach_all, on_dead, owned_by_relay, Sess,
}
use devvm.Session.Sessions.{close_session}

-- The expiry with which an owner holds the forward, if it does.
abbrev pub held_by : Owner → Option Fwd → Option ℕ
held_by o none = none
held_by o (some f) = expiry_of o f.owners

-- The expiry with which an owner holds a guest port's forward.
unfoldable pub holding : ℕ → Owner → Table → Option ℕ
holding g o fs = held_by o (find g fs)

pub expiry_of-empty : (o : Owner) (m : Owners) → is_empty m ≡ true → expiry_of o m ≡ none
unfolding expiry_of
expiry_of-empty o [] e = refl
expiry_of-empty o (x ∷ m) e = absurd (cc)

expiry_of-reject-kept :
    (match : Owner → ℕ → Bool) (o : Owner) (m : Owners)
    → ((p : Owner) (e : ℕ) → same p o ≡ true → match p e ≡ false)
    → expiry_of o (reject_owners match m) ≡ expiry_of o m
unfolding expiry_of reject_owners
expiry_of-reject-kept match o [] h = refl
expiry_of-reject-kept match o ((p, x) ∷ m) h =
    let ih = expiry_of-reject-kept match o m h in
    elim (Bool-cases (same p o)) [
      | inl s ↦ rw (h p x s, s) refl
      | inr s ↦ elim (Bool-cases (match p x)) [ inl k ↦ rw (k, s) ih | inr k ↦ rw (k, s) ih ]
    ]

expiry_of-reject-gone :
    (match : Owner → ℕ → Bool) (o : Owner) (m : Owners)
    → ((p : Owner) (e : ℕ) → same p o ≡ true → match p e ≡ true)
    → expiry_of o (reject_owners match m) ≡ none
unfolding expiry_of reject_owners
expiry_of-reject-gone match o [] h = refl
expiry_of-reject-gone match o ((p, x) ∷ m) h =
    let ih = expiry_of-reject-gone match o m h in
    elim (Bool-cases (match p x)) [
      | inl k ↦ rw k ih
      | inr k ↦ elim (Bool-cases (same p o)) [
        | inl s ↦ let e = h p x s in absurd (cc)
        | inr s ↦ rw (k, s) ih
      ]
    ]

released-unheld : (f : Fwd) → released f ≡ true → unheld f ≡ true
unfolding released
released-unheld f h = ground arith

abbrev pub reject_in : (Owner → ℕ → Bool) → Option Fwd → Option Fwd
reject_in match none = none
reject_in match (some f) = some (record f { owners = reject_owners match f.owners })

-- The forward under a guest port after owners were dropped: what is left of its owners.
pub holding-drop :
    (match : Owner → ℕ → Bool) (g : ℕ) (o : Owner) (fs : Table)
    → IsMap fs
    → holding g o (drop_owners match fs).0 ≡ held_by o (reject_in match (find g fs))
unfolding holding drop_owners find
holding-drop match g o [] u = refl
holding-drop match g o (f ∷ fs) u =
    let ih = holding-drop match g o fs u.1 in
    let m = reject_owners match f.owners in
    let k = record f { owners = m } in
    elim (Bool-cases (f.guest == g)) [
      | inr miss ↦ elim (Bool-cases (released k)) [
        | inl r ↦ rw (miss, r) ih
        | inr r ↦ rw (miss, r, miss) ih
      ]
      | inl hit ↦ elim (Bool-cases (released k)) [
        | inl r ↦
            let free = subst (λ x. IsFree x fs) {x = f.guest} {y = g} (ground arith) u.0 in
            let gone = expiry_of-empty o m (released-unheld k r) in
            rw (hit, r, gone) (rw (IsFree-find g fs free) at ih)
        | inr r ↦ rw (hit, r, hit) refl
      ]
    ]

module _ (match : Owner → ℕ → Bool) (o : Owner) where
  -- An owner that the test never selects holds what it held.
  pub holding-drop_matching-kept :
      (g : ℕ) (d : Daemon)
      → IsMap d.forwards
      → ((p : Owner) (e : ℕ) → same p o ≡ true → match p e ≡ false)
      → holding g o (drop_matching match d).forwards ≡ holding g o d.forwards
  unfolding drop_matching holding
  holding-drop_matching-kept g d u h =
      holding-drop match g o d.forwards u ∙ kept (find g d.forwards)
    where
      kept : (x : Option Fwd) → held_by o (reject_in match x) ≡ held_by o x
      kept none = refl
      kept (some f) = expiry_of-reject-kept match o f.owners h

  -- An owner that the test always selects holds nothing.
  pub holding-drop_matching-gone :
      (g : ℕ) (d : Daemon)
      → IsMap d.forwards
      → ((p : Owner) (e : ℕ) → same p o ≡ true → match p e ≡ true)
      → holding g o (drop_matching match d).forwards ≡ none
  unfolding drop_matching holding
  holding-drop_matching-gone g d u h =
      holding-drop match g o d.forwards u ∙ gone (find g d.forwards)
    where
      gone : (x : Option Fwd) → held_by o (reject_in match x) ≡ none
      gone none = refl
      gone (some f) = expiry_of-reject-gone match o f.owners h

pub same-eq : (p o : Owner) → same p o ≡ true → p ≡ o
same-eq conf conf e = refl
same-eq ttl ttl e = refl
same-eq (connection a) (connection b) e = ap connection (ground arith)
same-eq conf ttl e = absurd (cc)
same-eq conf (connection b) e = absurd (cc)
same-eq ttl conf e = absurd (cc)
same-eq ttl (connection b) e = absurd (cc)
same-eq (connection a) conf e = absurd (cc)
same-eq (connection a) ttl e = absurd (cc)

-- A test of owners alone drops what the owners that pass it hold, and nothing else.
pub holding-drop_matching :
    (sel : Owner → ℕ → Bool) (g : ℕ) (o : Owner) (d : Daemon)
    → IsMap d.forwards
    → ((p : Owner) (e : ℕ) → sel p e ≡ sel p 0)
    → holding g o (drop_matching sel d).forwards
      ≡ (if sel o 0 then none else holding g o d.forwards)
holding-drop_matching sel g o d u flat = elim (Bool-cases (sel o 0)) [
  | inl h ↦ rw h (
      holding-drop_matching-gone sel o g d u
        (λ p e k. flat p e ∙ ap (λ x. sel x 0) (same-eq p o k) ∙ h))
  | inr h ↦ rw h (
      holding-drop_matching-kept sel o g d u
        (λ p e k. flat p e ∙ ap (λ x. sel x 0) (same-eq p o k) ∙ h))
]

-- In a table with one record for each guest port, closing a session drops what its connection
-- holds, and nothing else: every other owner of every forward keeps its hold, with the same expiry.
pub close_session-holding :
    (i g : ℕ) (o : Owner) (d : Daemon)
    → IsMap d.forwards
    → holding g o (close_session i d).forwards
      ≡ (if same o (connection i) then none else holding g o d.forwards)
unfolding close_session drop_matching
close_session-holding i g o d u =
    holding-drop_matching (λ p e. same p (connection i)) g o d u (λ p e. refl)

-- In a table with one record for each guest port, `ports down` drops the conf's hold of every
-- forward, and nothing else.
pub down-holding :
    (g : ℕ) (o : Owner) (d : Daemon)
    → IsMap d.forwards
    → holding g o (down d).0.forwards ≡ (if is_conf o then none else holding g o d.forwards)
unfolding down
down-holding g o d u =
    let e = drop_matching (λ p x. is_conf p) d in
    if_rule
      (λ (r : Daemon × Bool).
        holding g o r.0.forwards ≡ (if is_conf o then none else holding g o d.forwards))
      (idle_now e) (λ h. at_down) (λ h. at_down)
  where
    at_down :
        holding g o (drop_matching (λ p x. is_conf p) d).forwards
        ≡ (if is_conf o then none else holding g o d.forwards)
    at_down = holding-drop_matching (λ p x. is_conf p) g o d u (λ p x. refl)

pub holding-detach_all :
    (g : ℕ) (o : Owner) (fs : Table) → holding g o (detach_all fs) ≡ holding g o fs
unfolding holding find detach_all
holding-detach_all g o [] = refl
holding-detach_all g o (f ∷ fs) = elim (Bool-cases (f.guest == g)) [
  | inl h ↦ rw h refl
  | inr h ↦ rw h (holding-detach_all g o fs)
]

owned_by_relay-flat :
    (ss : List Sess) (p : Owner) (e : ℕ) → owned_by_relay ss p e ≡ owned_by_relay ss p 0
owned_by_relay-flat ss conf e = refl
owned_by_relay-flat ss ttl e = refl
owned_by_relay-flat ss (connection c) e = refl

-- In a table with one record for each guest port, the death of the transport drops what relay
-- sessions hold, and nothing else: the conf, the ttls and local sessions keep their holds for the
-- next transport.
pub on_dead-holding :
    (g : ℕ) (o : Owner) (d : Daemon)
    → IsMap d.forwards
    → holding g o (on_dead d).forwards
      ≡ (if owned_by_relay d.sessions o 0 then none else holding g o d.forwards)
unfolding on_dead detach drop_matching
on_dead-holding g o d u =
    let sel = owned_by_relay d.sessions in
    holding-detach_all g o (drop_owners sel d.forwards).0
    ∙ holding-drop_matching sel g o d u (owned_by_relay-flat d.sessions)
