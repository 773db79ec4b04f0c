-- ===== src/Session/Dispatch/Confined.antt =====
-- What a request of a session can do to the holds of others.
use devvm.Prelude.{ℕ, Bool, true, false, ◌≡◌, refl, Option, none, some, if_rule}
use devvm.Session.Owner.{Owner, connection, same, is_conf}
use devvm.Session.Table.{Table, IsMap}
use devvm.Session.Bind.{Forwarder}
use devvm.Session.Daemon.{Sess, Daemon, down}
use devvm.Session.Sessions.{subscribe, unsubscribe}
use devvm.Session.Holding.{holding, down-holding}
use devvm.Session.Holding.Remove.{remove-holding}
use devvm.Session.Dispatch.{
  Op, op_add, op_remove, op_list, op_ping, op_kick, op_stop, op_down, op_session, op_subscribe,
  op_unsubscribe, op_unknown, Request, Response, dispatch_remove, dispatch_down, dispatch_op,
  session_op, session_dispatch, with_id,
}

abbrev pub is_add : Op → Bool
is_add op_add = true
is_add _ = false

-- The request is answered, and `o` holds a guest port as it did.
abbrev pub IsKept : ℕ → Owner → Table → Option (Daemon × Response) → Type 0
IsKept g o fs none = ⊥
IsKept g o fs (some (d, r)) = holding g o d.forwards ≡ holding g o fs

module _ (g : ℕ) (o : Owner) (s : Sess) (q : Request) (forward : Forwarder)
    (dead upstream : Bool) where
  dispatch_down-IsKept :
      (d : Daemon)
      → IsMap d.forwards
      → is_conf o ≡ false
      → holding g o (dispatch_down d).0.forwards ≡ holding g o d.forwards
  unfolding dispatch_down
  dispatch_down-IsKept d u c =
      let e : holding g o (down d).0.forwards ≡ holding g o d.forwards =
        rw c at (down-holding g o d u) in
      if_rule (λ (r : Daemon × Response). holding g o r.0.forwards ≡ holding g o d.forwards)
        (down d).1 (λ h. e) (λ h. e)

  session_op-IsKept :
      (op : Op) (d : Daemon)
      → IsMap d.forwards
      → same (connection s.id) o ≡ false
      → is_conf o ≡ false
      → is_add op ≡ false
      → IsKept g o d.forwards (session_op op s q forward dead upstream d)
  unfolding session_op dispatch_remove dispatch_op subscribe unsubscribe
  session_op-IsKept op_add d u h c a = absurd (cc)
  session_op-IsKept op_remove d u h c a = remove-holding q.guest g (connection s.id) o d h
  session_op-IsKept op_list d u h c a = refl
  session_op-IsKept op_ping d u h c a = refl
  session_op-IsKept op_kick d u h c a = refl
  session_op-IsKept op_stop d u h c a = refl
  session_op-IsKept op_down d u h c a = dispatch_down-IsKept d u c
  session_op-IsKept op_session d u h c a = refl
  session_op-IsKept op_subscribe d u h c a = refl
  session_op-IsKept op_unsubscribe d u h c a = refl
  session_op-IsKept op_unknown d u h c a = refl

  with_id-IsKept :
      (x : Option (Daemon × Response)) (fs : Table)
      → IsKept g o fs x
      → IsKept g o fs (with_id q.id x)
  with_id-IsKept none fs h = h
  with_id-IsKept (some (d, r)) fs h = h

  -- In a table with one record for each guest port, a request of a session, other than an add, is
  -- answered, and leaves what every ttl and every other session holds as it was.
  pub session_dispatch-IsKept :
      (d : Daemon)
      → IsMap d.forwards
      → same (connection s.id) o ≡ false
      → is_conf o ≡ false
      → is_add q.op ≡ false
      → IsKept g o d.forwards (session_dispatch s q forward dead upstream d)
  unfolding session_dispatch
  session_dispatch-IsKept d u h c a =
      with_id-IsKept (session_op q.op s q forward dead upstream d) d.forwards
        (session_op-IsKept q.op d u h c a)
