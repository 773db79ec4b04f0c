-- ===== src/Session/Bridge/Url/Sound.antt =====
-- What a classification says of the URL it was made from.
use devvm.Prelude.{
  ℕ, ◌≤◌, ◌≡◌, true, false, inl, inr, refl, some, none, arith, Bool-cases, Option-cases, is_empty,
  Option, sym, ap,
}
use devvm.Text.{Text}
use devvm.Text.Decimal.{atoi}
use devvm.Session.Bridge.Url.{
  Url, Parser, is_loopback, port_text, port_of, loopback_port, redirect_port, callback_port,
  Classified, external, direct, redirect, is_v6, is_web, classify, classify_url,
}

-- The address of a forwardable port: loopback, the port in range.
abbrev pub IsPort : Url → Text → ℕ → Type 0
IsPort r s p = (is_loopback r.hostname ≡ true) × (port_of s ≡ some p) × (1 ≤ p) × (p ≤ 65535)

pub port_of-range : (s : Text) {p : ℕ} → port_of s ≡ some p → (1 ≤ p) × (p ≤ 65535)
unfolding port_of
port_of-range s e = elim (Option-cases (atoi s)) [
  | inl h ↦ let e' = rw h at e in absurd (cc)
  | inr (q, h) ↦ let e' = rw h at e in (ground arith, ground arith)
]

pub loopback_port-IsPort :
    (u : Url) {p : ℕ}
    → loopback_port u ≡ some p
    → (s : Text) × (port_text u ≡ some s) × IsPort u s p
unfolding loopback_port
loopback_port-IsPort u e = elim (Bool-cases (is_loopback u.hostname)) [
  | inr h ↦ let e' = rw h at e in absurd (cc)
  | inl h ↦
      let e' = rw h at e in
      elim (Option-cases (port_text u)) [
        | inl k ↦ let e'' = rw k at e' in absurd (cc)
        | inr (s, k) ↦
            let e'' = rw k at e' in
            (s, k, (h, e'', (port_of-range s e'').0, (port_of-range s e'').1))
      ]
]

pub redirect_port-IsPort :
    (o : Option Url) {p : ℕ}
    → redirect_port o ≡ some p
    → (r : Url) × (o ≡ some r) × IsPort r r.port p
unfolding redirect_port
redirect_port-IsPort none e = absurd (cc)
redirect_port-IsPort (some r) e = elim (Bool-cases (is_loopback r.hostname)) [
  | inr h ↦ let e' = rw h at e in absurd (cc)
  | inl h ↦
      let e' = rw h at e in
      (r, refl, (h, e', (port_of-range r.port e').0, (port_of-range r.port e').1))
]

-- A direct URL is a web URL whose own host is loopback; a redirect is a web URL whose own host is
-- not, with a `redirect_uri` that is. The port is the one written there, and in range.
abbrev pub IsOf : Parser → Url → Classified → Type 0
IsOf parse u external = Unit
IsOf parse u (direct p v6) =
    (is_web u ≡ true) × ((s : Text) × (port_text u ≡ some s) × IsPort u s p) × (is_v6 (some u) ≡ v6)
IsOf parse u (redirect p v6) =
    (is_web u ≡ true)
    × (loopback_port u ≡ none)
    × (is_empty u.redirect_uri ≡ false)
    × ((r : Url) × (parse u.redirect_uri ≡ some r) × IsPort r r.port p × (is_v6 (some r) ≡ v6))

abbrev pub IsOfRaw : Parser → Option Url → Classified → Type 0
IsOfRaw parse none c = c ≡ external
IsOfRaw parse (some u) c = IsOf parse u c

redirect-IsOf :
    (parse : Parser) (raw : Text) (u : Url) {p : ℕ}
    → parse raw ≡ some u
    → is_web u ≡ true
    → loopback_port u ≡ none
    → callback_port parse raw ≡ some p
    → IsOf parse u (redirect p (is_v6 (parse u.redirect_uri)))
unfolding callback_port
redirect-IsOf parse raw u h web l e =
    let e' = rw h at e in
    elim (Bool-cases (is_empty u.redirect_uri)) [
      | inl k ↦ let e'' = rw k at e' in absurd (cc)
      | inr k ↦
          let e'' = rw k at e' in
          let r = redirect_port-IsPort (parse u.redirect_uri) e'' in
          (web, l, k, (r.0, r.1, r.2, sym (ap is_v6 r.1)))
    ]

classify_url-IsOf :
    (parse : Parser) (raw : Text) (u : Url)
    → parse raw ≡ some u
    → IsOf parse u (classify_url parse raw u)
unfolding classify_url
classify_url-IsOf parse raw u h = elim (Bool-cases (is_web u)) [
  | inr web ↦ rw web tt
  | inl web ↦ elim (Option-cases (loopback_port u)) [
    | inr (p, l) ↦ rw (web, l) (web, loopback_port-IsPort u l, refl)
    | inl l ↦ elim (Option-cases (callback_port parse raw)) [
      | inl k ↦ rw (web, l, k) tt
      | inr (p, k) ↦ rw (web, l, k) (redirect-IsOf parse raw u h web l k)
    ]
  ]
]

-- A URL from the guest is external, or direct with the port that it names on its own loopback host,
-- or a redirect with the port that its redirect_uri parameter, and nothing else, names on a
-- loopback host; a port is from 1 to 65535, and a text that is no URL is external.
pub classify-IsOfRaw :
    (parse : Parser) (raw : Text) → IsOfRaw parse (parse raw) (classify parse raw)
unfolding classify
classify-IsOfRaw parse raw = elim (Option-cases (parse raw)) [
  | inl h ↦ rw h refl
  | inr (u, h) ↦ rw h (classify_url-IsOf parse raw u h)
]
