-- ===== src/Config/Entry/HostRoundTrip.antt =====
-- `ParseHost` of internal/config/file.go, and the text of a host and port in `EntryOf`.
use devvm.Prelude.{
  ℕ, zero, suc, ◌+◌, ◌≤◌, ◌<◌, Bool, true, false, ◌≡◌, inl, inr, refl, sym, ◌∙◌, ap, subst, [], ◌∷◌,
  ◌++◌, some, ◌==◌, arith, is_empty,
}
use mathlib.Core.List.{append_assoc}
use devvm.Text.{Text, cut, has_prefix, is_space, lacks, newline, trim_right}
use devvm.Text.Laws.{
  cut-append, cut-lacks, lacks-append, trim_right-between, trim_right-last, is_empty-append,
}
use devvm.Text.Trim.{IsTrimmed, trim_space-IsTrimmed}
use devvm.Text.Decimal.{plus, parse_int, format_nat}
use devvm.Text.Decimal.RoundTrip.{format_nat-lacks, format_nat-last, parse_int-format_nat}
use devvm.Config.Entry.{
  fine, in_port_range, with_port, bracket_port, bracket_host, plain_host, split_host, no_separators,
  check_host, parse_host,
}
use devvm.Config.Entry.Written.{host_text, bracketed_host}
use devvm.Config.Entry.Host.{IsIpv6, IsHost}
use devvm.Config.Entry.Host.Parts.{no_separators-append}

-- A printed number, as what is behind the last colon.
record IsPort (p : ℕ) (d : Text) : Type 0 where
  full : is_empty d ≡ false
  end : trim_right d ≡ d
  no_user : lacks b'@' d ≡ true
  no_colon : lacks b':' d ≡ true
  clean : no_separators d ≡ true
  value : parse_int d ≡ some (plus p)

digit_plain : (d : ℕ) → d < 10 → is_space (48 + d) ≡ false
unfolding is_space
digit_plain d h = ground arith

format_nat-ends :
    (p : ℕ) → (is_empty (format_nat p) ≡ false) × (trim_right (format_nat p) ≡ format_nat p)
format_nat-ends p =
    let (s, d, e, l) = format_nat-last p in
    (
      ap is_empty e ∙ is_empty-append s ((48 + d) ∷ []) refl,
      ap trim_right e ∙ trim_right-last s (48 + d) (digit_plain d l) ∙ sym e,
    )

format_nat-IsPort : (p : ℕ) → p ≤ 65535 → IsPort p (format_nat p)
unfolding no_separators
format_nat-IsPort p m = record {
  full = (format_nat-ends p).0;
  end = (format_nat-ends p).1;
  no_user = format_nat-lacks b'@' p refl;
  no_colon = format_nat-lacks b':' p refl;
  clean =
      rw
        (
          format_nat-lacks b' ' p refl,
          format_nat-lacks 9 p refl,
          format_nat-lacks newline p refl,
          format_nat-lacks b'/' p refl,
        )
        refl;
  value = parse_int-format_nat p (omega arith);
}

-- The first checks of `ParseHost` let a trimmed text through.
checks_pass :
    (is_ip : Text → Bool) (c : ℕ) (t : Text)
    → IsTrimmed c t
    → lacks b'@' (c ∷ t) ≡ true
    → no_separators (c ∷ t) ≡ true
    → (c == b'-') ≡ false
    → parse_host is_ip (c ∷ t) ≡ split_host is_ip (c ∷ t)
unfolding parse_host check_host has_prefix
checks_pass is_ip c t i u s d =
    ap (check_host is_ip) (trim_space-IsTrimmed c t i) ∙ rw (u, s) (ground arith)

in_port_range-some :
    (h : Text) (p : ℕ) → 1 ≤ p → p ≤ 65535 → in_port_range h (some (plus p)) ≡ fine (h, p)
unfolding in_port_range
in_port_range-some h p l m = ground arith

record PlainAt (c : ℕ) (t : Text) (p : ℕ) : Type 0 where
  no_space : is_space c ≡ false
  no_dash : (c == b'-') ≡ false
  no_bracket : (c == b'[') ≡ false
  no_colon : lacks b':' (c ∷ t) ≡ true
  no_user : lacks b'@' (c ∷ t) ≡ true
  clean : no_separators (c ∷ t) ≡ true
  back : p ≡ 0 → trim_right (c ∷ t) ≡ c ∷ t

split_host-plain :
    (is_ip : Text → Bool) (c : ℕ) (t : Text)
    → (c == b'[') ≡ false
    → split_host is_ip (c ∷ t) ≡ plain_host (c ∷ t) (cut b':' (c ∷ t))
unfolding split_host
split_host-plain is_ip c t h = rw h refl

plain_alone :
    (is_ip : Text → Bool) (c : ℕ) (t : Text)
    → PlainAt c t 0
    → parse_host is_ip (c ∷ t) ≡ fine (c ∷ t, 0)
unfolding plain_host with_port
plain_alone is_ip c t k =
    checks_pass is_ip c t (record { front = k.no_space; back = k.back refl }) k.no_user k.clean
      k.no_dash
    ∙ split_host-plain is_ip c t k.no_bracket
    ∙ ap (plain_host (c ∷ t)) (cut-lacks b':' (c ∷ t) k.no_colon)

plain_numbered :
    (is_ip : Text → Bool) (c : ℕ) (t : Text) (p : ℕ) (d : Text)
    → PlainAt c t p
    → IsPort p d
    → 1 ≤ p
    → p ≤ 65535
    → parse_host is_ip (c ∷ (t ++ b':' ∷ d)) ≡ fine (c ∷ t, p)
unfolding plain_host lacks no_separators
plain_numbered is_ip c t p d k i l m =
    checks_pass is_ip c (t ++ b':' ∷ d)
      (record { front = k.no_space; back = trim_right-between (c ∷ t) b':' d i.full i.end })
      (lacks-append b'@' (c ∷ t) (b':' ∷ d) k.no_user i.no_user)
      (no_separators-append (c ∷ t) (b':' ∷ d) k.clean i.clean) k.no_dash
    ∙ split_host-plain is_ip c (t ++ b':' ∷ d) k.no_bracket
    ∙ ap (plain_host (c ∷ (t ++ b':' ∷ d))) (cut-append b':' (c ∷ t) d k.no_colon)
    ∙ rw (i.no_colon, i.full, i.value) (in_port_range-some (c ∷ t) p l m)

ip_alone :
    (is_ip : Text → Bool) (h : Text) {p : ℕ}
    → IsHost is_ip h p
    → IsIpv6 is_ip h
    → parse_host is_ip (b'[' ∷ (h ++ b']' ∷ [])) ≡ fine (h, 0)
unfolding split_host bracket_host bracket_port with_port lacks no_separators is_space
ip_alone is_ip h k i =
    checks_pass is_ip b'[' (h ++ b']' ∷ [])
      (record { front = refl; back = trim_right-last (b'[' ∷ h) b']' refl })
      (lacks-append b'@' h (b']' ∷ []) k.no_user refl)
      (no_separators-append (b'[' ∷ h) (b']' ∷ []) k.clean refl) refl
    ∙ ap (bracket_host is_ip) (cut-append b']' h [] i.no_close)
    ∙ rw (i.accepted, i.has_colon) refl

ip_numbered :
    (is_ip : Text → Bool) (h : Text) (p : ℕ) (d : Text)
    → IsHost is_ip h p
    → IsIpv6 is_ip h
    → IsPort p d
    → 1 ≤ p
    → parse_host is_ip (b'[' ∷ (h ++ b']' ∷ b':' ∷ d)) ≡ fine (h, p)
unfolding split_host bracket_host bracket_port lacks no_separators is_space
ip_numbered is_ip h p d k i n l =
    checks_pass is_ip b'[' (h ++ b']' ∷ b':' ∷ d)
      (record {
        front = refl;
        back =
            ap trim_right (sym (append_assoc (b'[' ∷ h) (b']' ∷ []) (b':' ∷ d)))
            ∙ trim_right-between (b'[' ∷ (h ++ b']' ∷ [])) b':' d n.full n.end
            ∙ append_assoc (b'[' ∷ h) (b']' ∷ []) (b':' ∷ d);
      })
      (lacks-append b'@' h (b']' ∷ b':' ∷ d) k.no_user n.no_user)
      (no_separators-append (b'[' ∷ h) (b']' ∷ b':' ∷ d) k.clean n.clean) refl
    ∙ ap (bracket_host is_ip) (cut-append b']' h (b':' ∷ d) i.no_close)
    ∙ rw (i.accepted, i.has_colon, n.full, n.value) (in_port_range-some h p l k.max_port)

suc_not_zero : (n : ℕ) → (suc n == 0) ≡ false
suc_not_zero n = ground arith

module _ (is_ip : Text → Bool) where
  plain_text :
      (c : ℕ) (t : Text) (p : ℕ)
      → PlainAt c t p
      → p ≤ 65535
      → parse_host is_ip (host_text (c ∷ t) p) ≡ fine (c ∷ t, p)
  unfolding host_text bracketed_host
  plain_text c t zero a m = rw a.no_colon (plain_alone is_ip c t a)
  plain_text c t (suc p) a m =
      rw (suc_not_zero p, a.no_colon)
        (plain_numbered is_ip c t (suc p) (format_nat (suc p)) a (format_nat-IsPort (suc p) m)
          (omega arith) m)

  ip_text :
      (h : Text) (p : ℕ)
      → IsHost is_ip h p
      → IsIpv6 is_ip h
      → parse_host is_ip (host_text h p) ≡ fine (h, p)
  unfolding host_text bracketed_host
  ip_text h zero k i = rw i.has_colon (ip_alone is_ip h k i)
  ip_text h (suc p) k i =
      rw (suc_not_zero p, i.has_colon)
        (ap (λ (x : Text). parse_host is_ip (b'[' ∷ x))
            (append_assoc h (b']' ∷ []) (b':' ∷ format_nat (suc p)))
          ∙ ip_numbered is_ip h (suc p) (format_nat (suc p)) k i
              (format_nat-IsPort (suc p) k.max_port) (omega arith))

  -- The text of a host and port, as `EntryOf` writes it, parses to them.
  pub parse_host-host_text :
      (h : Text) (p : ℕ) → IsHost is_ip h p → parse_host is_ip (host_text h p) ≡ fine (h, p)
  parse_host-host_text h p k = elim k.form [
    | inl i ↦
        subst (λ (x : Text). parse_host is_ip (host_text x p) ≡ fine (x, p)) {x = i.first ∷ i.tail}
          {y = h} (sym i.is_cons)
          (plain_text i.first i.tail p
            (record {
              no_space = i.no_space;
              no_dash = i.no_dash;
              no_bracket = i.no_bracket;
              no_colon = rw i.is_cons at i.no_colon;
              no_user = rw i.is_cons at k.no_user;
              clean = rw i.is_cons at k.clean;
              back = λ z. rw i.is_cons at (i.back z);
            })
            k.max_port)
    | inr i ↦ ip_text h p k i
  ]
