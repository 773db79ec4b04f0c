-- ===== src/Session/Bridge/Url.antt =====
-- internal/session/bridge.go: how the bridge sorts a URL from the guest (`classify`), and
-- internal/hostbrowser/hostbrowser.go: `Sanitize`. `url.Parse` is an argument, with what the code
-- reads of a parsed URL. A text is the list of its code points.
pub mod Sound
use devvm.Prelude.{
  ℕ, ◌+◌, ◌-◌, ◌*◌, Bool, true, false, not, ◌&&◌, ◌||◌, List, [], ◌∷◌, Option, none, some, ltb, leb,
  ◌==◌, if◌then◌else◌, is_empty,
}
use devvm.Text.{
  codes, Text, cut, eq_text, has_prefix, is_space, lacks, newline, prepend, split_lines, trim_left,
  trim_right, trim_space,
}
use devvm.Text.Decimal.{atoi, digits_value}

abbrev pub http : Text
http = codes "http"

abbrev pub https : Text
https = codes "https"

abbrev pub localhost : Text
localhost = codes "localhost"

abbrev pub loopback_v4 : Text
loopback_v4 = codes "127.0.0.1"

abbrev pub loopback_v6 : Text
loopback_v6 = codes "::1"

-- `http://` and `https://`.
abbrev http_colon : Text
http_colon = codes "http://"

abbrev https_colon : Text
https_colon = codes "https://"

-- `Sanitize`: whether the URL may be opened; it is passed on as it is.
unfoldable pub sanitize : Text → Bool
unfolding has_prefix
sanitize raw = has_prefix http_colon raw || has_prefix https_colon raw

-- What the code reads of a `*url.URL`: `Scheme`, `Hostname()`, `Port()` and the query's
-- `redirect_uri`.
pub record Url : Type 0 where
  pub scheme : Text
  pub hostname : Text
  pub port : Text
  pub redirect_uri : Text

-- `strings.ToLower`, on the letters that the loopback names are written with.
lower_char : ℕ → ℕ
lower_char c = if leb 65 c && leb c 90 then c + 32 else c

unfoldable pub lower : Text → Text
unfolding lower_char
lower [] = []
lower (c ∷ s) = lower_char c ∷ lower s

-- `isLoopback`.
unfoldable pub is_loopback : Text → Bool
unfolding lower eq_text
is_loopback host =
    let h = lower host in eq_text h localhost || eq_text h loopback_v4 || eq_text h loopback_v6

-- A port in range: the tests that `loopbackPort` and `CallbackPort` share.
abbrev in_range : Option ℕ → Option ℕ
in_range none = none
in_range (some p) = if ltb p 1 || ltb 65535 p then none else some p

unfoldable pub port_of : Text → Option ℕ
unfolding atoi
port_of s = in_range (atoi s)

-- The port that is written, or the scheme's.
unfoldable pub port_text : Url → Option Text
unfolding eq_text
port_text u =
    if not (is_empty u.port)
    then some u.port
    else if eq_text u.scheme http
    then some (codes "80")
    else if eq_text u.scheme https
    then some (codes "443")
    else none

-- `loopbackPort`.
unfoldable pub loopback_port : Url → Option ℕ
unfolding port_text port_of is_loopback
loopback_port u =
    if not (is_loopback u.hostname)
    then none
    else elim (port_text u) [ none ↦ none | some s ↦ port_of s ]

abbrev pub Parser : Type 0
Parser = Text → Option Url

-- `CallbackPort`, on the parsed URL; and on the text.
unfoldable pub redirect_port : Option Url → Option ℕ
unfolding port_of is_loopback
redirect_port none = none
redirect_port (some r) = if is_loopback r.hostname then port_of r.port else none

abbrev callback_of : Parser → Option Url → Option ℕ
callback_of parse none = none
callback_of parse (some u) =
    if is_empty u.redirect_uri then none else redirect_port (parse u.redirect_uri)

unfoldable pub callback_port : Parser → Text → Option ℕ
unfolding redirect_port
callback_port parse raw = callback_of parse (parse raw)

-- `classified`, by its kind.
pub data Classified : Type 0 where
  external : Classified
  direct : ℕ → Bool → Classified
  redirect : ℕ → Bool → Classified

-- Whether the address is a literal [::1].
abbrev pub is_v6 : Option Url → Bool
is_v6 none = false
is_v6 (some r) = eq_text r.hostname loopback_v6

abbrev pub is_web : Url → Bool
is_web u = eq_text u.scheme http || eq_text u.scheme https

unfoldable pub classify_url : Parser → Text → Url → Classified
unfolding loopback_port callback_port eq_text
classify_url parse raw u = if not (is_web u) then external else elim (loopback_port u) [
  | some p ↦ direct p (is_v6 (some u))
  | none ↦ elim (callback_port parse raw) [
    | some p ↦ redirect p (is_v6 (parse u.redirect_uri))
    | none ↦ external
  ]
]

abbrev classify_parsed : Parser → Text → Option Url → Classified
classify_parsed parse raw none = external
classify_parsed parse raw (some u) = classify_url parse raw u

unfoldable pub classify : Parser → Text → Classified
unfolding classify_url
classify parse raw = classify_parsed parse raw (parse raw)
