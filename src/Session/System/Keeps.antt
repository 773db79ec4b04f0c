-- ===== src/Session/System/Keeps.antt =====
-- The critical sections keep every forward sound.
use devvm.Prelude.{
  ℕ, Bool, false, not, ◌&&◌, ◌||◌, ◌≡◌, inl, inr, refl, List, [], ◌∷◌, Option, some, arith, All,
  All-map, Bool-cases, if_rule, Option-cases, ◌==◌, keep, is_empty,
}
use devvm.Session.Owner.{Owner, conf, ttl, connection, same, is_conf, delete_owner}
use devvm.Session.Owner.Once.{delete_owner-IsOnce}
use devvm.Session.Owner.Each.{Each-delete_owner}
use devvm.Session.Fwd.{Fwd, is_none, unheld}
use devvm.Session.Table.{find, put}
use devvm.Session.Table.Rules.{All-put, All-erase, All-find}
use devvm.Session.Daemon.{
  Transport, Sess, Daemon, session, remove_sess, idle_now, is_up, released, drop_matching, remove,
  Removed, remove_from, down, detach, on_dead, owned_by_relay, is_relay,
}
use devvm.Session.Add.{orphan}
use devvm.Session.Sessions.{open_session, close_session}
use devvm.Session.System.Sound.{Sound, detach_all-Sound, drop_owners-Sound}

-- Every forward of the daemon is sound.
abbrev pub AllSound : Daemon → Type 0
AllSound d = All (Sound d.sessions d.tr) d.forwards

session-remove :
    (c i : ℕ) (ss : List Sess) → (c == i) ≡ false → session c (remove_sess i ss) ≡ session c ss
unfolding session remove_sess
session-remove c i [] h = refl
session-remove c i (s ∷ ss) h = ground (arith, session-remove c i ss h)

session-keep_local :
    (c : ℕ) (ss : List Sess)
    → is_none (session c ss) ≡ false
    → is_relay ss c ≡ false
    → is_none (session c (keep (λ s. not s.relay) ss)) ≡ false
unfolding session
session-keep_local c [] h k = cc
session-keep_local c (s ∷ ss) h k = ground (arith, session-keep_local c ss)

orphan-closed :
    (i : ℕ) (ss : List Sess) (o : Owner)
    → orphan ss o ≡ false
    → same o (connection i) ≡ false
    → orphan (remove_sess i ss) o ≡ false
orphan-closed i ss conf h k = refl
orphan-closed i ss ttl h k = refl
orphan-closed i ss (connection c) h k = rw (session-remove c i ss k) h

orphan-local :
    (ss : List Sess) (o : Owner) (e : ℕ)
    → orphan ss o ≡ false
    → owned_by_relay ss o e ≡ false
    → orphan (keep (λ s. not s.relay) ss) o ≡ false
orphan-local ss conf e h k = refl
orphan-local ss ttl e h k = refl
orphan-local ss (connection c) e h k = session-keep_local c ss h k

orphan-open :
    (s : Sess) (ss : List Sess) (o : Owner) → orphan ss o ≡ false → orphan (s ∷ ss) o ≡ false
unfolding session
orphan-open s ss conf h = refl
orphan-open s ss ttl h = refl
orphan-open s ss (connection c) h = ground arith

-- Sessions that come do no harm.
Sound-later :
    (ss later : List Sess) (tr : Option Transport)
    → ((o : Owner) → orphan ss o ≡ false → orphan later o ≡ false)
    → (f : Fwd) → Sound ss tr f
    → Sound later tr f
Sound-later ss later tr mono f s = record {
  carried = s.carried;
  registered =
      All-map (λ p. orphan ss p.0 ≡ false) (λ p. orphan later p.0 ≡ false) f.owners
        (λ p h. mono p.0 h) s.registered;
  unbound = s.unbound;
  owned = s.owned;
  once = s.once;
}

pub open_session-AllSound :
    (relay : Bool) (d : Daemon) → AllSound d → AllSound (open_session relay d).0
unfolding open_session
open_session-AllSound relay d k =
    elim (Bool-cases (relay && (not (is_up d.state) || is_none d.tr))) [
      | inl e ↦ rw e k
      | inr e ↦ rw e (
          All-map (Sound d.sessions d.tr) _ d.forwards
            (Sound-later d.sessions _ d.tr (orphan-open _ d.sessions)) k)
    ]

pub close_session-AllSound : (i : ℕ) (d : Daemon) → AllSound d → AllSound (close_session i d)
unfolding close_session drop_matching
close_session-AllSound i d k =
    drop_owners-Sound d.tr d.sessions (remove_sess i d.sessions) (λ o e. same o (connection i))
      (λ o e h m. orphan-closed i d.sessions o h m) d.forwards k

pub drop_matching-AllSound :
    (match : Owner → ℕ → Bool) (d : Daemon) → AllSound d → AllSound (drop_matching match d)
unfolding drop_matching
drop_matching-AllSound match d k =
    drop_owners-Sound d.tr d.sessions d.sessions match (λ o e h m. h) d.forwards k

pub down-AllSound : (d : Daemon) → AllSound d → AllSound (down d).0
unfolding down
down-AllSound d k =
    let rest = drop_matching-AllSound (λ o x. is_conf o) d k in
    elim (Bool-cases (idle_now (drop_matching (λ o x. is_conf o) d))) [
      | inl e ↦ rw e rest
      | inr e ↦ rw e rest
    ]

pub detach-AllSound : (d : Daemon) → AllSound d → AllSound (detach d)
unfolding detach
detach-AllSound d k = detach_all-Sound d.sessions d.tr d.forwards k

pub on_dead-AllSound : (d : Daemon) → AllSound d → AllSound (on_dead d)
unfolding on_dead
on_dead-AllSound d k = detach_all-Sound _ d.tr _ (
    drop_owners-Sound d.tr d.sessions (keep (λ s. not s.relay) d.sessions)
      (owned_by_relay d.sessions) (orphan-local d.sessions) d.forwards k)

-- A forward of the table, with other owners, where that leaves it owned or being bound.
pub put-AllSound :
    (f : Fwd) (d : Daemon)
    → Sound d.sessions d.tr f
    → AllSound d
    → AllSound (record d { forwards = put f d.forwards })
put-AllSound f d s k = All-put (Sound d.sessions d.tr) f d.forwards s k

pub find-Sound :
    (g : ℕ) (d : Daemon) {f : Fwd}
    → AllSound d
    → find g d.forwards ≡ some f
    → Sound d.sessions d.tr f
find-Sound g d k e = All-find (Sound d.sessions d.tr) g d.forwards k e

pub delete_owner-Sound :
    {ss : List Sess} {tr : Option Transport} (own : Owner) (f : Fwd)
    → Sound ss tr f
    → (f.binding ≡ false → is_empty (delete_owner own f.owners) ≡ false)
    → Sound ss tr (record f { owners = delete_owner own f.owners })
delete_owner-Sound {ss} own f s h = record {
  carried = s.carried;
  registered = Each-delete_owner (λ o. orphan ss o ≡ false) own f.owners s.registered;
  unbound = s.unbound;
  owned = h;
  once = delete_owner-IsOnce own f.owners s.once;
}

remove_from-AllSound :
    (own : Owner) (f : Fwd) (d : Daemon)
    → Sound d.sessions d.tr f
    → AllSound d
    → AllSound (remove_from own f d).0
unfolding remove_from released
remove_from-AllSound own f d s k =
    if_rule (λ (r : Daemon × Removed). AllSound r.0) (not (unheld g))
      (λ e. put-AllSound g d (kept (λ b. ground arith)) k)
      (λ e.
        if_rule (λ (r : Daemon × Removed). AllSound r.0) (released g)
          (λ b. All-erase (Sound d.sessions d.tr) f.guest d.forwards k)
          (λ b. put-AllSound g d (kept (λ c. ground arith)) k))
  where
    g : Fwd
    g = record f { owners = delete_owner own f.owners }

    kept : (f.binding ≡ false → unheld g ≡ false) → Sound d.sessions d.tr g
    kept h = delete_owner-Sound own f s h

pub remove-AllSound : (g : ℕ) (own : Owner) (d : Daemon) → AllSound d → AllSound (remove g own d).0
unfolding remove
remove-AllSound g own d k = elim (Option-cases (find g d.forwards)) [
  | inl e ↦ rw (e, remove) k
  | inr (f, e) ↦ rw (e, remove) (remove_from-AllSound own f d (find-Sound g d k e) k)
]
