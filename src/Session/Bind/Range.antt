-- ===== src/Session/Bind/Range.antt =====
-- What `bind` allocates: the first free port of the range, or the exact one.
use devvm.Prelude.{
  ℕ, zero, suc, ◌+◌, ◌≤◌, ◌<◌, Bool, true, false, not, ◌≡◌, refl, sym, ◌∙◌, subst, ◌↔◌, ◌⊎◌, inl,
  inr, some, arith, ◌==◌,
}
use mathlib.Core.Path.{subst₂}
use devvm.Session.Fwd.{Closer}
use devvm.Session.Bind.{
  port_busy, hub_refused, broken, Outcome, opened, refused, Forwarder, exhausted, bound, unbound,
  max_tries, bind_exact, bind_from, bind, contention,
}

-- Port `h` is the first of the `n` ports from `lo` that is not busy, and `forward` opened it.
pub record FirstFree (forward : Forwarder) (guest lo n h : ℕ) (c : Closer) : Type 0 where
  pub above : lo ≤ h
  pub below : h < lo + n
  pub opens : forward h guest ≡ opened c
  pub taken : (p : ℕ) → lo ≤ p → p < h → forward p guest ≡ refused port_busy

Outcome-cases :
    (o : Outcome)
    → ((c : Closer) × (o ≡ opened c))
      ⊎ ((o ≡ refused port_busy)
          ⊎ ((o ≡ refused hub_refused) ⊎ ((m : ℕ) × (o ≡ refused (broken m)))))
Outcome-cases (opened c) = inl (c, refl)
Outcome-cases (refused port_busy) = inr (inl refl)
Outcome-cases (refused hub_refused) = inr (inr (inl refl))
Outcome-cases (refused (broken m)) = inr (inr (inr (m, refl)))

eq_or_above : (a b : ℕ) → a ≤ b → (a ≡ b) ⊎ (a + 1 ≤ b)
eq_or_above a b h = grind arith

module _ (forward : Forwarder) (guest : ℕ) where
  FirstFree-here :
      (n lo : ℕ) (c : Closer)
      → forward lo guest ≡ opened c
      → FirstFree forward guest lo (suc n) lo c
  FirstFree-here n lo c o = record {
    above = omega arith;
    below = omega arith;
    opens = o;
    taken = λ p a b. absurd (omega arith);
  }

  FirstFree-next :
      (n lo h : ℕ) (c : Closer)
      → forward lo guest ≡ refused port_busy
      → FirstFree forward guest (lo + 1) n h c
      → FirstFree forward guest lo (suc n) h c
  FirstFree-next n lo h c o s = record {
    above = omega (arith, s.above);
    below = omega (arith, s.below);
    opens = s.opens;
    taken = λ p a b. elim (eq_or_above lo p a) [
      | inl e ↦ subst (λ q. forward q guest ≡ refused port_busy) e o
      | inr l ↦ s.taken p l b
    ];
  }

  bind_from_sound :
      (n pref lo h : ℕ) (c : Closer) (b : Bool)
      → bind_from n forward pref guest lo ≡ bound h c b
      → FirstFree forward guest lo n h c × (b ≡ not (h == pref))
  unfolding bind_from
  bind_from_sound zero pref lo h c b e = cc
  bind_from_sound (suc n) pref lo h c b e = elim (Outcome-cases (forward lo guest)) [
    | inl (d, o) ↦
        let eq = rw (o, bind_from) at e in
        (
          subst₂ (λ x y. FirstFree forward guest lo (suc n) x y) (cc) (cc)
              (FirstFree-here n lo d o),
          cc,
        )
    | inr (inl o) ↦
        let (s, q) = bind_from_sound n pref (lo + 1) h c b (rw (o, bind_from) at e) in
        (FirstFree-next n lo h c o s, q)
    | inr (inr (inl o)) ↦ cc (rw (o, bind_from) at e)
    | inr (inr (inr (m, o))) ↦ cc (rw (o, bind_from) at e)
  ]

  bind_from_complete :
      (n pref lo h : ℕ) (c : Closer)
      → FirstFree forward guest lo n h c
      → bind_from n forward pref guest lo ≡ bound h c (not (h == pref))
  unfolding bind_from
  bind_from_complete zero pref lo h c s = absurd (omega (arith, s.above, s.below))
  bind_from_complete (suc n) pref lo h c s = elim (eq_or_above lo h s.above) [
    | inl e ↦ rw (subst (λ q. forward q guest ≡ opened c) (sym e) s.opens, bind_from) (rw e)
    | inr l ↦
        rw (s.taken lo (omega arith) (omega arith), bind_from)
          (bind_from_complete n pref (lo + 1) h c (record {
            above = l;
            below = omega (arith, s.below);
            opens = s.opens;
            taken = λ p a b. s.taken p (omega arith) b;
          }))
  ]

  bind_from-exhausted :
      (n pref lo : ℕ)
      → ((p : ℕ) → lo ≤ p → p < lo + n → forward p guest ≡ refused port_busy)
      → bind_from n forward pref guest lo ≡ unbound (exhausted guest pref)
  unfolding bind_from
  bind_from-exhausted zero pref lo all = refl
  bind_from-exhausted (suc n) pref lo all =
      rw (all lo (omega arith) (omega arith), bind_from)
        (bind_from-exhausted n pref (lo + 1) (λ p a b. all p (omega arith) (omega arith)))

  -- A bind that may bump returns the first port of the 20 from the preferred one that is not busy,
  -- and reports whether it bumped; whenever there is such a port with a forward, it returns it.
  pub bind-FirstFree :
      (pref h : ℕ) (c : Closer) (b : Bool)
      → (bind (some forward) pref guest false ≡ bound h c b)
        ↔ (FirstFree forward guest pref max_tries h c × (b ≡ not (h == pref)))
  unfolding bind
  bind-FirstFree pref h c b = (
    bind_from_sound max_tries pref pref h c b,
    λ s. bind_from_complete max_tries pref pref h c s.0 ∙ rw s.1,
  )

  -- Where all 20 ports are busy, a bind that may bump fails as exhausted, and that counts as
  -- contention.
  pub bind_all_busy :
      (pref : ℕ)
      → ((p : ℕ) → pref ≤ p → p < pref + max_tries → forward p guest ≡ refused port_busy)
      → (bind (some forward) pref guest false ≡ unbound (exhausted guest pref))
        × (contention (exhausted guest pref) ≡ true)
  unfolding bind contention
  bind_all_busy pref all = (bind_from-exhausted max_tries pref pref all, refl)

  -- An exact bind succeeds exactly if the port asked for opens, and then it got that port,
  -- unbumped.
  pub bind_exact_port :
      (pref h : ℕ) (c : Closer) (b : Bool)
      → (bind (some forward) pref guest true ≡ bound h c b)
        ↔ ((h ≡ pref) × (b ≡ false) × (forward pref guest ≡ opened c))
  unfolding bind bind_exact
  bind_exact_port pref h c b = elim (Outcome-cases (forward pref guest)) [
    | inl (d, o) ↦ rw (o, bind_exact) (ground arith, ground arith)
    | inr (inl o) ↦ rw (o, bind_exact) (ground arith, ground arith)
    | inr (inr (inl o)) ↦ rw (o, bind_exact) (ground arith, ground arith)
    | inr (inr (inr (m, o))) ↦ rw (o, bind_exact) (ground arith, ground arith)
  ]

  -- Whatever a bind returns, `forward` opened it for that host port.
  pub bound_opens :
      (pref : ℕ) (exact : Bool) (h : ℕ) (c : Closer) (b : Bool)
      → bind (some forward) pref guest exact ≡ bound h c b
      → forward h guest ≡ opened c
  bound_opens pref true h c b e =
      let (at_pref, _, opens) = (bind_exact_port pref h c b).0 e in
      subst (λ p. forward p guest ≡ opened c) (sym at_pref) opens
  bound_opens pref false h c b e = ((bind-FirstFree pref h c b).0 e).0.opens
