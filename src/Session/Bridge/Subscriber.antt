-- ===== src/Session/Bridge/Subscriber.antt =====
-- internal/session/bridge.go: the subscriber's side of the bridge (`openOnHost`, `withPort`,
-- `printable`), and `Open` of internal/hostbrowser/hostbrowser.go. Arguments: the opener that is
-- found, if any, and the error of its start, if any; `url.Parse`; and how `url.URL` prints a URL
-- with another `Host`.
pub mod Safe
use devvm.Prelude.{
  ℕ, Bool, true, false, not, ◌&&◌, ◌||◌, [], ◌∷◌, ◌++◌, Option, none, some, ltb, leb, ◌==◌,
  if◌then◌else◌,
}
use devvm.Text.{Text, codes, lacks}
use devvm.Text.Decimal.{format_nat}
use devvm.Session.Bridge.Open.{BridgeEvent}
use devvm.Session.Bridge.Url.{Parser, sanitize, Classified, external, direct, redirect}

-- `hostbrowser`'s errors.
pub data OpenErr : Type 0 where
  not_http : OpenErr
  no_opener : OpenErr
  not_started : Text → OpenErr

abbrev started : Text → Option Text → Option OpenErr
started o none = none
started o (some e) =
    some (not_started (codes "browser opener " ++ o ++ codes " failed to start: " ++ e))

-- `hostbrowser.Open`.
unfoldable pub browser_open : Option Text → (Text → Text → Option Text) → Text → Option OpenErr
unfolding sanitize
browser_open opener start url =
    if not (sanitize url)
    then some not_http
    else elim opener [ none ↦ some no_opener | some o ↦ started o (start o url) ]

-- `agentrpc.OpenReply`.
pub record OpenReply : Type 0 where
  pub opened : Bool
  pub printed : Bool
  pub url : Text
  pub guest : ℕ
  pub host_port : ℕ
  pub err : Text

-- `printable`.
abbrev pub is_control : ℕ → Bool
is_control r = ltb r 32 || r == 127 || (leb 128 r && ltb r 160)

unfoldable pub printable : Text → Text
printable [] = []
printable (r ∷ s) = (if is_control r then b'?' else r) ∷ printable s

-- `net.JoinHostPort`.
unfoldable pub join_host_port : Text → Text → Text
unfolding lacks
join_host_port host port =
    if lacks b':' host then host ++ b':' ∷ port else b'[' ∷ host ++ b']' ∷ b':' ∷ port

-- `withPort`.
unfoldable pub replace_port : Parser → (Text → Text → Text) → Text → ℕ → Text
unfolding join_host_port
replace_port parse with_host raw port = elim (parse raw) [
  | none ↦ raw
  | some u ↦ with_host raw (join_host_port u.hostname (format_nat port))
]

abbrev is_direct : Classified → Bool
is_direct (direct p v6) = true
is_direct (redirect p v6) = false
is_direct external = false

-- The URL to open.
unfoldable pub target_of : Parser → (Text → Text → Text) → BridgeEvent → Text
unfolding replace_port
target_of parse with_host ev =
    if is_direct ev.kind && ltb 0 ev.bound && not (ev.bound == ev.guest)
    then replace_port parse with_host ev.url ev.bound
    else ev.url

abbrev pub why_not : OpenErr → Text
why_not not_http = codes "host refused a non-http(s) URL"
why_not no_opener = codes "no browser opener"
why_not (not_started why) = why

abbrev crlf : Text
crlf = b'\r' ∷ b'\n' ∷ []

-- What the terminal gets.
abbrev pub notice : Text → Text → Text
notice why shown =
    crlf
    ++ codes "devvm: could not open a browser ("
    ++ why
    ++ codes "); open this URL on this host:"
    ++ crlf
    ++ codes "  "
    ++ shown
    ++ crlf

unfoldable pub answer_open : BridgeEvent → Text → Option OpenErr → OpenReply × Text
unfolding printable
answer_open ev target r =
    let rep : OpenReply = record {
      opened = true;
      printed = false;
      url = target;
      guest = ev.guest;
      host_port = ev.bound;
      err = [];
    } in
    elim r [
      | none ↦ (rep, [])
      | some not_http ↦ (record rep { opened = false; err = why_not not_http }, [])
      | some e ↦ (
        record rep { opened = false; printed = true; err = why_not e },
        notice (why_not e) (printable target),
      )
    ]

-- `openOnHost`: the reply, and what the terminal gets; `none` is an event that is not understood.
unfoldable pub open_on_host :
    Parser → (Text → Text → Text) → (Text → Option OpenErr) → Option BridgeEvent → OpenReply × Text
unfolding target_of answer_open
open_on_host parse with_host opens none = (
  record {
    opened = false;
    printed = false;
    url = [];
    guest = 0;
    host_port = 0;
    err = codes "this devvm does not know that event";
  },
  [],
)
open_on_host parse with_host opens (some ev) =
    let target = target_of parse with_host ev in answer_open ev target (opens target)
