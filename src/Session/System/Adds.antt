-- ===== src/Session/System/Adds.antt =====
-- An add, up to its claim, against what holds of every forward.
pub mod Bound
use devvm.Prelude.{
  ℕ, Bool, true, false, not, ◌&&◌, ◌||◌, ◌≡◌, inl, inr, refl, List, [], ◌∷◌, Option, none, some,
  arith, All, All-map, Bool-cases, if_rule, ◌==◌,
}
use devvm.Session.Owner.{Owner, delete_owner, add_owner}
use devvm.Session.Owner.Once.{IsOnce, one-IsOnce, add_owner-IsOnce}
use devvm.Session.Owner.Each.{Each-add_owner, add_owner-ne-nil}
use devvm.Session.Fwd.{Closer, Fwd, is_none, unheld, new_fwd, start_binding}
use devvm.Session.Table.{Table, find, Ref, held}
use devvm.Session.Table.Rules.{All-erase, All-held}
use devvm.Session.Daemon.{Transport, Sess, Daemon, settle, is_up}
use devvm.Session.Daemon.Settle.{settled-idle}
use devvm.Session.Add.{
  orphan, AddReq, AddStep, add_section, add_at, add_old, add_new, ephemeral_room, usable, Claim,
  Answer,
}
use devvm.Session.Add.Binding.{
  adopt, adopt_into, adoptable, same_transport, bind_lost, bind_error, bind_slot,
}
use devvm.Session.Bind.{BindErr, BindRes, bound, unbound}
use devvm.Session.Rebind.{rebinds, claim_all}
use devvm.Session.System.Sound.{Carried, Registered, Sound, settle-Sound}
use devvm.Session.System.Keeps.{put-AllSound, find-Sound, delete_owner-Sound, AllSound}

add_owner-Sound :
    (ss : List Sess) (tr : Option Transport) (own : Owner) (e : ℕ) (exact : Bool) (f : Fwd)
    → orphan ss own ≡ false
    → Sound ss tr f
    → Sound ss tr (record f { owners = (add_owner own e f.owners).0; exact = exact })
add_owner-Sound ss tr own e exact f h s = record {
  carried = s.carried;
  registered = Each-add_owner (λ o. orphan ss o ≡ false) own e f.owners h s.registered;
  unbound = s.unbound;
  owned = λ b. add_owner-ne-nil own e f.owners;
  once = add_owner-IsOnce own e f.owners s.once;
}

-- A slot without a closer may be claimed.
claim-Sound :
    (ss : List Sess) (tr : Option Transport) (f : Fwd)
    → f.closer ≡ none
    → Registered ss f.owners
    → IsOnce f.owners
    → Sound ss tr (start_binding f)
claim-Sound ss tr f e r u = record {
  carried = rw e tt;
  registered = r;
  unbound = λ b. e;
  owned = λ b. cc;
  once = u;
}

new-Sound :
    (q : AddReq) (i : ℕ) (exact : Bool) (ss : List Sess) (tr : Option Transport)
    → orphan ss q.own ≡ false
    → Sound ss tr (new_fwd i q.pref q.guest exact q.own q.expires)
new-Sound q i exact ss tr h = record {
  carried = tt;
  registered = (h, tt);
  unbound = λ b. refl;
  owned = λ b. refl;
  once = one-IsOnce q.own q.expires;
}

add_new-AllSound :
    (q : AddReq) (o : Option Transport) (d : Daemon)
    → orphan d.sessions q.own ≡ false
    → AllSound d
    → AllSound (add_new q o d).0
unfolding add_new
add_new-AllSound q none d h k =
    put-AllSound _ d (new-Sound q d.next_fwd q.exact d.sessions d.tr h) k
add_new-AllSound q (some tr) d h k =
    put-AllSound _ d
      (claim-Sound d.sessions d.tr (new_fwd d.next_fwd q.pref q.guest false q.own q.expires) refl
        (h, tt) (one-IsOnce q.own q.expires))
      k

add_old-AllSound :
    (q : AddReq) (f : Fwd) (c : Option Closer) (o : Option Transport) (d : Daemon)
    → f.closer ≡ c
    → orphan d.sessions q.own ≡ false
    → Sound d.sessions d.tr f
    → AllSound d
    → AllSound (add_old q f c o d).0
unfolding add_old
add_old-AllSound q f (some c) o d e h s k =
    put-AllSound _ d (add_owner-Sound d.sessions d.tr q.own q.expires _ f h s) k
add_old-AllSound q f none none d e h s k =
    put-AllSound _ d (add_owner-Sound d.sessions d.tr q.own q.expires _ f h s) k
add_old-AllSound q f none (some tr) d e h s k =
    let held_too = add_owner-Sound d.sessions d.tr q.own q.expires f.exact f h s in
    put-AllSound _ d
      (claim-Sound d.sessions d.tr (record f { owners = (add_owner q.own q.expires f.owners).0 }) e
        held_too.registered held_too.once)
      k

add_at-AllSound :
    (q : AddReq) (o : Option Fwd) (d : Daemon)
    → ((f : Fwd) → o ≡ some f → Sound d.sessions d.tr f)
    → orphan d.sessions q.own ≡ false
    → AllSound d
    → AllSound (add_at q o d).0
unfolding add_at
add_at-AllSound q none d s h k =
    if_rule (λ (r : Daemon × AddStep). AllSound r.0) (q.capped && not (ephemeral_room d)) (λ e. k)
      (λ e. add_new-AllSound q (usable d) d h k)
add_at-AllSound q (some f) d s h k =
    if_rule (λ (r : Daemon × AddStep). AllSound r.0) f.binding (λ e. k)
      (λ e.
        if_rule (λ (r : Daemon × AddStep). AllSound r.0) (q.exact && not (f.host == q.pref))
          (λ x. k) (λ x. add_old-AllSound q f f.closer (usable d) d refl h (s f refl) k))

pub add_section-AllSound : (q : AddReq) (d : Daemon) → AllSound d → AllSound (add_section q d).0
unfolding add_section
add_section-AllSound q d k =
    if_rule (λ (r : Daemon × AddStep). AllSound r.0) (orphan d.sessions q.own) (λ e. k)
      (λ e. add_at-AllSound q (find q.guest d.forwards) d (λ f x. find-Sound q.guest d k x) e k)
