-- ===== src/Session/Bridge/Subscriber/Safe.antt =====
-- What the subscriber's side opens and prints of a URL that it was sent.
use devvm.Prelude.{
  suc, Bool, true, false, not, ◌≡◌, refl, ap, sym, subst, [], ◌∷◌, Option, none, some, if_rule, All,
  length, arith,
}
use devvm.Text.{Text}
use devvm.Session.Bridge.Open.{BridgeEvent}
use devvm.Session.Bridge.Url.{Parser, sanitize, Classified, external, direct, redirect}
use devvm.Session.Bridge.Subscriber.{
  OpenErr, not_http, no_opener, not_started, browser_open, OpenReply, is_control, printable,
  target_of, notice, answer_open, open_on_host,
}

-- As many characters as in `url`, and none a control character.
abbrev pub IsShown : Text → Text → Type 0
IsShown url shown = All (λ r. is_control r ≡ false) shown × (length shown ≡ length url)

-- A reply by `opened` and `printed`, with what the terminal gets.
abbrev pub IsAnswer : Bool → Bool → OpenReply → Text → Type 0
IsAnswer true p rep term = (sanitize rep.url ≡ true) × (p ≡ false) × (term ≡ []) × (rep.err ≡ [])
IsAnswer false true rep term =
    (shown : Text) × (term ≡ notice rep.err shown) × IsShown rep.url shown
IsAnswer false false rep term = term ≡ []

-- Only the URL of a direct event may be rewritten.
abbrev IsKept : Classified → Text → Text → Type 0
IsKept (direct p v6) raw url = Unit {0}
IsKept (redirect p v6) raw url = url ≡ raw
IsKept external raw url = url ≡ raw

abbrev pub IsPassedOn : Option BridgeEvent → OpenReply → Type 0
IsPassedOn none rep = Unit {0}
IsPassedOn (some ev) rep = IsKept ev.kind ev.url rep.url

printable-IsShown : (s : Text) → IsShown s (printable s)
unfolding printable
printable-IsShown [] = (tt, refl)
printable-IsShown (r ∷ s) =
    let (plain, same) = printable-IsShown s in
    ((if_rule (λ x. is_control x ≡ false) (is_control r) (λ e. refl) (λ e. e), plain), ap suc same)

browser_open-sanitize :
    (opener : Option Text) (start : Text → Text → Option Text) (url : Text)
    → browser_open opener start url ≡ none
    → sanitize url ≡ true
unfolding browser_open
browser_open-sanitize opener start url =
    if_rule (λ (x : Option OpenErr). x ≡ none → sanitize url ≡ true) (not (sanitize url))
      (λ e q. absurd (cc)) (λ e q. ground arith)

module _ (ev : BridgeEvent) (target : Text) where
  answer_open-IsAnswer :
      (r : Option OpenErr)
      → (r ≡ none → sanitize target ≡ true)
      → let (rep, term) = answer_open ev target r in IsAnswer rep.opened rep.printed rep term
  unfolding answer_open
  answer_open-IsAnswer none h = (h refl, refl, refl, refl)
  answer_open-IsAnswer (some not_http) h = refl
  answer_open-IsAnswer (some no_opener) h = (printable target, refl, printable-IsShown target)
  answer_open-IsAnswer (some (not_started why)) h =
      (printable target, refl, printable-IsShown target)

  answer_open-url : (r : Option OpenErr) → (answer_open ev target r).0.url ≡ target
  unfolding answer_open
  answer_open-url none = refl
  answer_open-url (some not_http) = refl
  answer_open-url (some no_opener) = refl
  answer_open-url (some (not_started why)) = refl

target_of-IsKept :
    (parse : Parser) (with_host : Text → Text → Text) (k : Classified) (ev : BridgeEvent)
    → ev.kind ≡ k
    → IsKept k ev.url (target_of parse with_host ev)
unfolding target_of
target_of-IsKept parse with_host (direct p v6) ev e = tt
target_of-IsKept parse with_host (redirect p v6) ev e = rw e refl
target_of-IsKept parse with_host external ev e = rw e refl

-- The subscriber's side of the bridge, whatever event it is sent: a URL that it opens starts with
-- http:// or https://; a redirect's URL and an external one are opened as they came; the terminal
-- gets nothing unless the reply says that the URL was printed, and then a notice of the reply's
-- error, in which stands a text without control characters, as long as the URL.
pub open_on_host-IsAnswer :
    (parse : Parser) (with_host : Text → Text → Text) (opener : Option Text)
    (start : Text → Text → Option Text) (o : Option BridgeEvent)
    → let (rep, term) = open_on_host parse with_host (browser_open opener start) o in
      IsAnswer rep.opened rep.printed rep term × IsPassedOn o rep
unfolding open_on_host
open_on_host-IsAnswer parse with_host opener start none = (refl, tt)
open_on_host-IsAnswer parse with_host opener start (some ev) =
    let target = target_of parse with_host ev in
    let r = browser_open opener start target in
    (
      answer_open-IsAnswer ev target r (browser_open-sanitize opener start target),
      subst (IsKept ev.kind ev.url) (sym (answer_open-url ev target r))
          (target_of-IsKept parse with_host ev.kind ev refl),
    )
