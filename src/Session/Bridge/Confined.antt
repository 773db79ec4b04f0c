-- ===== src/Session/Bridge/Confined.antt =====
-- What an open-url can do to the forwards: the guest chooses the URL.
use devvm.Prelude.{
  ℕ, ◌≤◌, ◌≡◌, ◌⊎◌, inl, inr, refl, Bool, true, false, not, List, [], ◌∷◌, Option, none, some,
  arith, ltb, if_rule,
}
use devvm.Text.{Text}
use devvm.Session.Table.{Table}
use devvm.Session.Bind.{Forwarder}
use devvm.Session.Daemon.{Sess, Daemon, is_up}
use devvm.Session.RateLimit.{allow_open}
use devvm.Session.Bridge.Url.{Parser, sanitize, Classified, external, direct, redirect, classify}
use devvm.Session.Add.Binding.{Meanwhile}
use devvm.Session.Bridge.{min_forward_port}
use devvm.Session.Bridge.Open.{
  BridgeEvent, Heard, Reply, open_port, open_kind, open_for, bridge_open,
}

-- The forwards after an open that ran to its reply are `fs`.
abbrev pub IsStill : Table → Option (Daemon × Reply) → Type 0
IsStill fs none = Unit
IsStill fs (some (e, r)) = e.forwards ≡ fs

-- The URL names an unprivileged port on a loopback host.
abbrev pub NamesPort : Classified → Type 0
NamesPort external = ⊥
NamesPort (direct port v6) = 1024 ≤ port
NamesPort (redirect port v6) = 1024 ≤ port

abbrev pub IsLocal : List Sess → Type 0
IsLocal [] = ⊥
IsLocal (s ∷ ss) = s.relay ≡ false

module _ (parse : Parser) (raw : Text) (now : ℕ) (forward : Forwarder) (dead : Bool) (m : Meanwhile)
    (hear : BridgeEvent → Heard) where
  open_port-IsStill :
      (c : Classified) (port : ℕ) (exact v6 : Bool) (sub : Sess) (d : Daemon)
      → IsStill d.forwards (open_port raw c port exact v6 sub now forward dead m hear d)
        ⊎ ((sub.relay ≡ false) × (1024 ≤ port) × (is_up d.state ≡ true))
  unfolding open_port
  open_port-IsStill c port exact v6 sub d =
      let P : Option (Daemon × Reply) → Type 0 = λ o.
        IsStill d.forwards o ⊎ ((sub.relay ≡ false) × (1024 ≤ port) × (is_up d.state ≡ true)) in
      if_rule P sub.relay (λ h. inl refl)
        (λ h.
          if_rule P (ltb port min_forward_port) (λ k. inl refl)
            (λ k.
              if_rule P (not (is_up d.state)) (λ m. inl refl)
                (λ m. inr (h, ground arith, ground arith))))

  open_kind-IsStill :
      (c : Classified) (sub : Sess) (d : Daemon)
      → IsStill d.forwards (open_kind raw c sub now forward dead m hear d)
        ⊎ ((sub.relay ≡ false) × NamesPort c × (is_up d.state ≡ true))
  unfolding open_kind
  open_kind-IsStill external sub d = inl refl
  open_kind-IsStill (direct port v6) sub d = open_port-IsStill (direct port v6) port false v6 sub d
  open_kind-IsStill (redirect port v6) sub d =
      open_port-IsStill (redirect port v6) port true v6 sub d

  open_for-IsStill :
      (subs : List Sess) (d : Daemon)
      → IsStill d.forwards (open_for parse raw subs now forward dead m hear d)
        ⊎ (IsLocal subs × NamesPort (classify parse raw) × (is_up d.state ≡ true))
  unfolding open_for
  open_for-IsStill [] d = inl refl
  open_for-IsStill (s ∷ ss) d = open_kind-IsStill (classify parse raw) s d

  -- Whatever runs between the sections of a bind, an open leaves the forwards as they are, unless the URL is http(s) and names a port of 1024 or
  -- more on a loopback host, the most recent subscriber is no relay, the transport is up, and the
  -- rate limit allows the open.
  pub bridge_open-IsStill :
      (d : Daemon)
      → IsStill d.forwards (bridge_open parse raw now forward dead m hear d)
        ⊎ ((sanitize raw ≡ true)
            × ((allow_open now d).1 ≡ true)
            × IsLocal d.subs
            × NamesPort (classify parse raw)
            × (is_up d.state ≡ true))
  unfolding bridge_open allow_open
  bridge_open-IsStill d =
      let P : Option (Daemon × Reply) → Type 0 = λ o.
        IsStill d.forwards o
        ⊎ ((sanitize raw ≡ true)
            × ((allow_open now d).1 ≡ true)
            × IsLocal d.subs
            × NamesPort (classify parse raw)
            × (is_up d.state ≡ true)) in
      if_rule P (not (sanitize raw)) (λ h. inl refl)
        (λ h.
          if_rule P (not (allow_open now d).1) (λ k. inl refl)
            (λ k. elim (open_for-IsStill d.subs (allow_open now d).0) [
              | inl still ↦ inl still
              | inr r ↦ inr (ground arith, ground arith, r.0, r.1, r.2)
            ]))
