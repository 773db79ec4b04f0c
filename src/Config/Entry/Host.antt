-- ===== src/Config/Entry/Host.antt =====
-- `ParseHost` of internal/config/file.go: what its host and port are like.
pub mod Parts
use devvm.Prelude.{
  ℕ, ◌≤◌, Bool, true, false, not, ◌&&◌, ◌||◌, ◌≡◌, ◌⊎◌, inl, inr, refl, sym, subst, [], ◌∷◌, ◌++◌,
  Option, none, some, leb, ◌==◌, ==_iff, arith, if_rule, Option-cases, is_empty,
}
use devvm.Text.{Text, cut, has_prefix, is_space, lacks, newline, trim_right, trim_space}
use mathlib.Core.List.{append-nil}
use devvm.Text.Laws.{cut-some, cut_first, cut_none, lacks-append, lacks-front}
use devvm.Text.Trim.{IsTrimmed, IsTrimmed-of, trim_space_twice}
use devvm.Text.Decimal.{Int64, plus, minus, parse_int}
use devvm.Config.Entry.{
  Checked, fine, wrong, in_port_range, with_port, bracket_port, bracket_host, plain_host,
  split_host, no_separators, check_host, parse_host,
}
use devvm.Config.Entry.Host.Parts.{
  IfFine, in_port_range-IfFine, with_port-IfFine, no_separators-front, no_separators-tail,
  lacks-tail, no_dash_of,
}

-- A host name or an IPv4 address. Without a port it ends in no space.
pub record IsPlain (h : Text) (p : ℕ) : Type 0 where
  pub first : ℕ
  pub tail : Text
  pub is_cons : h ≡ first ∷ tail
  pub no_space : is_space first ≡ false
  pub no_dash : (first == b'-') ≡ false
  pub no_bracket : (first == b'[') ≡ false
  pub no_colon : lacks b':' h ≡ true
  pub back : p ≡ 0 → trim_right h ≡ h

pub record IsIpv6 (is_ip : Text → Bool) (h : Text) : Type 0 where
  pub accepted : is_ip h ≡ true
  pub has_colon : lacks b':' h ≡ false
  pub no_close : lacks b']' h ≡ true

-- What `ParseHost` returns.
pub record IsHost (is_ip : Text → Bool) (h : Text) (p : ℕ) : Type 0 where
  pub no_user : lacks b'@' h ≡ true
  pub clean : no_separators h ≡ true
  pub max_port : p ≤ 65535
  pub form : IsPlain h p ⊎ IsIpv6 is_ip h

-- What the first checks leave of a text.
record IsPassed (c : ℕ) (t : Text) : Type 0 where
  trimmed : IsTrimmed c t
  no_user : lacks b'@' (c ∷ t) ≡ true
  clean : no_separators (c ∷ t) ≡ true
  no_dash : (c == b'-') ≡ false

module _ (is_ip : Text → Bool) where
  abbrev Host : Text × ℕ → Type 0
  Host (h, p) = IsHost is_ip h p

  -- The host is the text in front of the colon.
  plain-IsHost :
      (c : ℕ) (t h rest : Text)
      → IsPassed c t
      → (c == b'[') ≡ false
      → c ∷ t ≡ h ++ rest
      → is_empty h ≡ false
      → lacks b':' h ≡ true
      → (p : ℕ) → p ≤ 65535
      → (p ≡ 0 → trim_right h ≡ h)
      → IsHost is_ip h p
  plain-IsHost c t [] rest k b e n l p m z = absurd (cc)
  plain-IsHost c t (d ∷ h) rest k b e n l p m z =
      let same : c ≡ d = cc in
      record {
        no_user = lacks-front b'@' (d ∷ h) rest (rw (← e) k.no_user);
        clean = no_separators-front (d ∷ h) rest (rw (← e) k.clean);
        max_port = m;
        form = inl (record {
          first = d;
          tail = h;
          is_cons = refl;
          no_space = rw (← same) k.trimmed.front;
          no_dash = rw (← same) k.no_dash;
          no_bracket = rw (← same) b;
          no_colon = l;
          back = z;
        });
      }

  plain_host-IsHost :
      (c : ℕ) (t : Text)
      → IsPassed c t
      → (c == b'[') ≡ false
      → IfFine Host (plain_host (c ∷ t) (cut b':' (c ∷ t)))
  unfolding plain_host with_port
  plain_host-IsHost c t k b = elim (Option-cases (cut b':' (c ∷ t))) [
    | inl e ↦ rw e (
        plain-IsHost c t (c ∷ t) [] k b (sym (append-nil (c ∷ t))) refl (cut_none b':' (c ∷ t) e) 0
          (omega arith) (λ z. k.trimmed.back))
    | inr ((h, p), e) ↦ rw e (
        if_rule (IfFine Host) (not (lacks b':' p)) (λ x. tt)
          (λ x.
            if_rule (IfFine Host) (is_empty h || is_empty p) (λ y. tt)
              (λ y. numbered h p e (ground arith) (ground arith))))
  ]
    where
      numbered :
          (h p : Text)
          → cut b':' (c ∷ t) ≡ some (h, p)
          → is_empty h ≡ false
          → is_empty p ≡ false
          → IfFine Host (with_port h p)
      numbered h p e n q =
          if_rule (IfFine Host) (is_empty p) (λ w. absurd (cc))
            (λ w. in_port_range-IfFine Host h (parse_int p) (λ m low high.
              plain-IsHost c t h (b':' ∷ p) k b (cut-some b':' (c ∷ t) {a = h} {b = p} e) n
                (cut_first b':' (c ∷ t) {a = h} {b = p} e) m high (λ z. absurd (omega arith))))

  bracket_host-IsHost : (t : Text) → IsPassed b'[' t → IfFine Host (bracket_host is_ip (cut b']' t))
  unfolding bracket_host bracket_port
  bracket_host-IsHost t k = elim (Option-cases (cut b']' t)) [
    | inl e ↦ rw e tt
    | inr ((h, r), e) ↦ rw e (
        if_rule (IfFine Host) (not (is_ip h) || lacks b':' h) (λ x. tt)
          (λ x. bracketed h r e (ground arith) (ground arith)))
  ]
    where
      address :
          (h r : Text)
          → cut b']' t ≡ some (h, r)
          → is_ip h ≡ true
          → lacks b':' h ≡ false
          → (p : ℕ) → p ≤ 65535
          → IsHost is_ip h p
      address h r e a n p m =
          let parts = cut-some b']' t {a = h} {b = r} e in
          record {
            no_user =
                lacks-front b'@' h (b']' ∷ r) (rw (← parts) (lacks-tail b'@' b'[' t k.no_user));
            clean =
                no_separators-front h (b']' ∷ r) (rw (← parts) (no_separators-tail b'[' t k.clean));
            max_port = m;
            form = inr (record {
              accepted = a;
              has_colon = n;
              no_close = cut_first b']' t {a = h} {b = r} e;
            });
          }

      bracketed :
          (h r : Text)
          → cut b']' t ≡ some (h, r)
          → is_ip h ≡ true
          → lacks b':' h ≡ false
          → IfFine Host (bracket_port h r)
      bracketed h [] e a n =
          with_port-IfFine Host h [] (address h [] e a n 0 (omega arith))
            (λ m low high. address h [] e a n m high)
      bracketed h (d ∷ p) e a n =
          if_rule (IfFine Host) (not (d == b':') || is_empty p) (λ x. tt)
            (λ x.
              with_port-IfFine Host h p (address h (d ∷ p) e a n 0 (omega arith))
                (λ m low high. address h (d ∷ p) e a n m high))

  split_host-IsHost : (c : ℕ) (t : Text) → IsPassed c t → IfFine Host (split_host is_ip (c ∷ t))
  unfolding split_host
  split_host-IsHost c t k =
      if_rule (IfFine Host) (c == b'[')
        (λ e.
          bracket_host-IsHost t
            (subst (λ (d : ℕ). IsPassed d t) {x = c} {y = b'['} ((==_iff c b'[').0 e) k))
        (λ e. plain_host-IsHost c t k e)

  check_host-IsHost : (s : Text) → trim_space s ≡ s → IfFine Host (check_host is_ip s)
  unfolding check_host
  check_host-IsHost [] e = tt
  check_host-IsHost (c ∷ t) e =
      if_rule (IfFine Host) (not (lacks b'@' (c ∷ t))) (λ h. tt)
        (λ h.
          if_rule (IfFine Host) (has_prefix (b'-' ∷ []) (c ∷ t) || not (no_separators (c ∷ t)))
            (λ k. tt) (λ k. split_host-IsHost c t (passed c t e (ground arith) k)))
    where
      passed :
          (c : ℕ) (t : Text)
          → trim_space (c ∷ t) ≡ c ∷ t
          → lacks b'@' (c ∷ t) ≡ true
          → (has_prefix (b'-' ∷ []) (c ∷ t) || not (no_separators (c ∷ t))) ≡ false
          → IsPassed c t
      passed c t e h k = record {
        trimmed = IsTrimmed-of c t e;
        no_user = h;
        clean = ground arith;
        no_dash = no_dash_of c t (ground arith);
      }

  pub parse_host-IsHost : (s : Text) → IfFine Host (parse_host is_ip s)
  unfolding parse_host
  parse_host-IsHost s = check_host-IsHost (trim_space s) (trim_space_twice s)
