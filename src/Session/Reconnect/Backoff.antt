-- ===== src/Session/Reconnect/Backoff.antt =====
-- How long `reconnect` waits between its attempts.
use devvm.Prelude.{
  ℕ, suc, ◌*◌, ◌^◌, ◌≤◌, ◌≡◌, refl, ◌∙◌, ap, subst, Bool, true, false, List, [], ◌∷◌, Option, none,
  some, arith, if_rule,
}
use native.Mathlib.Nat.{mul_assoc, pow-suc}
use devvm.Session.Daemon.{Daemon, idle_now, detach}
use devvm.Session.Rebind.{restore}
use devvm.Session.Reconnect.{
  Limits, Dialed, Wake, stopped, unmanaged, vm_not_running, dial_failed, connected, stops, idles,
  kicks, waited, meanwhile, Retry, Turn, still, ended, out_of_fuel, lesser, back_off,
  settle_attempt, attempt, on_wake, reconnect,
}
use devvm.Session.Reconnect.Turns.{Lasts, reconnect_from-rule}

-- The attempts since the last kick, counted on from `n`.
unfoldable pub streak : ℕ → List Wake → ℕ
streak n [] = n
streak n (kicks ∷ ws) = streak 0 ws
streak n (waited x ∷ ws) = streak (suc n) ws
streak n (_ ∷ ws) = streak n ws

-- After `n` attempts that failed.
abbrev pub IsPaced : Limits → ℕ → Retry → Type 0
IsPaced l n r = (r.backoff ≡ lesser (l.min_backoff * 2 ^ n) l.max_backoff) × (r.wait ≤ r.backoff)

abbrev pub StaysPaced : Limits → ℕ → Turn → Type 0
StaysPaced l n (still r d) = IsPaced l n r
StaysPaced l n _ = Unit {0}

doubled : (b m : ℕ) → lesser (lesser b m * 2) m ≡ lesser (b * 2) m
doubled b m = ground arith

one_more : (m n : ℕ) → m * 2 ^ n * 2 ≡ m * 2 ^ suc n
one_more m n = rw (pow-suc, mul_assoc) refl

lesser-first : (m n : ℕ) → m ≤ n → m * 2 ^ 0 ≡ m → m ≡ lesser (m * 2 ^ 0) n
lesser-first m n h e = rw e (ground arith)

module _ (l : Limits) where
  back_off-StaysPaced :
      (n : ℕ) (r : Retry) (d : Daemon) → IsPaced l n r → StaysPaced l (suc n) (back_off l r d)
  unfolding back_off
  back_off-StaysPaced n r d (e, w) = (
    ap (λ b. lesser (b * 2) l.max_backoff) e
        ∙ doubled (l.min_backoff * 2 ^ n) l.max_backoff
        ∙ ap (λ b. lesser b l.max_backoff) (one_more l.min_backoff n),
    omega arith,
  )

  attempt-StaysPaced :
      (n : ℕ) (x : Dialed) (r : Retry) (d : Daemon)
      → IsPaced l n r
      → StaysPaced l (suc n) (attempt l x r d)
  unfolding attempt settle_attempt
  attempt-StaysPaced n stopped r d k = tt
  attempt-StaysPaced n unmanaged r d k = tt
  attempt-StaysPaced n vm_not_running r d k = back_off-StaysPaced n r d k
  attempt-StaysPaced n dial_failed r d k = back_off-StaysPaced n r d k
  attempt-StaysPaced n (connected t forward now) r d k = after (restore now t forward d)
    where
      after :
          (o : Option (Daemon × Bool))
          → StaysPaced l (suc n) (elim o [ none ↦ out_of_fuel | some x ↦ settle_attempt l r x ])
      after none = tt
      after (some (e, true)) = tt
      after (some (e, false)) = back_off-StaysPaced n r (detach e) k

  -- Before the wakes `ws`: they lead to a streak of `n`.
  abbrev IsPacedFor : ℕ → List Wake → Retry → Daemon → Type 0
  IsPacedFor n ws r d = (k : ℕ) × IsPaced l k r × (streak k ws ≡ n)

  StaysPaced-Lasts :
      (n k : ℕ) (ws : List Wake) (t : Turn)
      → streak k ws ≡ n
      → StaysPaced l k t
      → Lasts (IsPacedFor n) (StaysPaced l n) ws t
  StaysPaced-Lasts n k ws (still r d) e h = (k, h, e)
  StaysPaced-Lasts n k ws (ended x d) e h = tt
  StaysPaced-Lasts n k ws out_of_fuel e h = tt

  on_wake-Lasts :
      l.min_backoff ≤ l.max_backoff
      → (n : ℕ) (w : Wake) (ws : List Wake) (r : Retry) (d : Daemon) → IsPacedFor n (w ∷ ws) r d
      → Lasts (IsPacedFor n) (StaysPaced l n) ws (on_wake l w r d)
  unfolding on_wake streak
  on_wake-Lasts h n stops ws r d i = tt
  on_wake-Lasts h n idles ws r d i =
      if_rule (Lasts (IsPacedFor n) (StaysPaced l n) ws) (idle_now d) (λ e. tt) (λ e. i)
  on_wake-Lasts h n kicks ws r d (k, p, e) =
      (0, (lesser-first l.min_backoff l.max_backoff h (omega arith), omega arith), e)
  on_wake-Lasts h n (waited x) ws r d (k, p, e) =
      StaysPaced-Lasts n (suc k) ws (attempt l x r d) e (attempt-StaysPaced k x r d p)
  on_wake-Lasts h n (meanwhile f) ws r d i = i

-- While a reconnect goes on, its backoff is minBackoff doubled once for each attempt since the
-- start or the last kick, and at most maxBackoff, where minBackoff is not above maxBackoff; and the
-- timer for the next attempt was last set for no longer than that.
pub reconnect-StaysPaced :
    (l : Limits) (ws : List Wake) (d : Daemon)
    → l.min_backoff ≤ l.max_backoff
    → StaysPaced l (streak 0 ws) (reconnect l ws d)
unfolding reconnect streak
reconnect-StaysPaced l ws d h =
    reconnect_from-rule (IsPacedFor l (streak 0 ws)) (StaysPaced l (streak 0 ws)) l ws _ d
      (λ r e (k, p, s). subst (λ n. IsPaced l n r) s p) (on_wake-Lasts l h (streak 0 ws))
      (0, (lesser-first l.min_backoff l.max_backoff h (omega arith), omega arith), refl)
