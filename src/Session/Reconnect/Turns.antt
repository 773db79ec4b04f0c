-- ===== src/Session/Reconnect/Turns.antt =====
-- Induction over the turns of `reconnect`.
use devvm.Prelude.{◌≡◌, ap, List, [], ◌∷◌}
use devvm.Session.Daemon.{Daemon}
use devvm.Session.Reconnect.{
  Limits, Wake, Retry, Exit, Turn, still, ended, out_of_fuel, on_wake, reconnect_from,
}

module _ (l : Limits) (w : Wake) (ws : List Wake) (r : Retry) (d : Daemon) where
  abbrev go_on : Turn → Turn
  go_on t = elim t [
    | still q e ↦ reconnect_from l ws q e
    | ended x e ↦ ended x e
    | out_of_fuel ↦ out_of_fuel
  ]

  pub reconnect_from-still :
      {q : Retry} {e : Daemon}
      → on_wake l w r d ≡ still q e
      → reconnect_from l (w ∷ ws) r d ≡ reconnect_from l ws q e
  unfolding reconnect_from
  reconnect_from-still h = ap go_on h

  pub reconnect_from-ended :
      {x : Exit} {e : Daemon}
      → on_wake l w r d ≡ ended x e
      → reconnect_from l (w ∷ ws) r d ≡ ended x e
  unfolding reconnect_from
  reconnect_from-ended h = ap go_on h

-- `I` is what holds before each turn, of the wakes to come; `Q` is what shall hold in the end.
module _ (I : List Wake → Retry → Daemon → Type 0) (Q : Turn → Type 0) where
  -- After a turn, with the wakes `ws` to come.
  abbrev pub Lasts : List Wake → Turn → Type 0
  Lasts ws (still r d) = I ws r d
  Lasts ws (ended x d) = Q (ended x d)
  Lasts ws out_of_fuel = Q out_of_fuel

  pub reconnect_from-rule :
      (l : Limits) (ws : List Wake) (r : Retry) (d : Daemon)
      → ((r : Retry) (d : Daemon) → I [] r d → Q (still r d))
      → ((w : Wake) (ws : List Wake) (r : Retry) (d : Daemon)
          → I (w ∷ ws) r d
          → Lasts ws (on_wake l w r d))
      → I ws r d
      → Q (reconnect_from l ws r d)
  unfolding reconnect_from
  reconnect_from-rule l [] r d last turn i = last r d i
  reconnect_from-rule l (w ∷ ws) r d last turn i =
      follow (λ q e k. reconnect_from-rule l ws q e last turn k) (on_wake l w r d) (turn w ws r d i)
    where
      follow :
          ((q : Retry) (e : Daemon) → I ws q e → Q (reconnect_from l ws q e))
          → (t : Turn) → Lasts ws t
          → Q (elim t [
            | still q e ↦ reconnect_from l ws q e
            | ended x e ↦ ended x e
            | out_of_fuel ↦ out_of_fuel
          ])
      follow rest (still q e) k = rest q e k
      follow rest (ended x e) k = k
      follow rest out_of_fuel k = k
