-- ===== src/Session/RateLimit.antt =====
-- internal/session/bridge.go: `allowOpen`, the bridge's rate limit. Times are in nanoseconds.
use devvm.Prelude.{
  ℕ, ◌+◌, ◌*◌, ◌^◌, ◌≤◌, ◌<◌, Bool, true, false, ◌&&◌, ◌≡◌, refl, sym, ap, ◌∙◌, ◌↔◌, List, [], ◌∷◌,
  ◌++◌, arith, ltb, leb, if◌then◌else◌, keep, length, length-append, length-keep-le, Bool-cases,
  inl, inr,
}
use mathlib.Core.List.{append-nil, append_assoc}
use devvm.Session.Daemon.{Transport, Daemon, new_daemon}

abbrev pub open_rate_limit : ℕ
open_rate_limit = 10

abbrev pub open_rate_window : ℕ
open_rate_window = 60 * 10 ^ 9

-- `now.Sub(t) < openRateWindow`, which holds too where the clock went back.
abbrev pub recent : ℕ → ℕ → Bool
recent now t = ltb now (t + open_rate_window)

-- The new window, and whether the open is allowed.
unfoldable pub allow_opens : ℕ → List ℕ → List ℕ × Bool
allow_opens now opens =
    let kept = keep (recent now) opens in
    if leb open_rate_limit (length kept) then (kept, false) else (kept ++ now ∷ [], true)

unfoldable pub allow_open : ℕ → Daemon → Daemon × Bool
unfolding allow_opens
allow_open now d = let r = allow_opens now d.opens in (record d { opens = r.0 }, r.1)

-- The times of the opens that were allowed, for opens asked at the times `ts`, oldest first.
unfoldable pub granted : List ℕ → Daemon → List ℕ
granted [] d = []
granted (t ∷ ts) d =
    let r = allow_open t d in let rest = granted ts r.0 in if r.1 then t ∷ rest else rest

-- The daemon after those opens.
unfoldable pub after_opens : List ℕ → Daemon → Daemon
after_opens [] d = d
after_opens (t ∷ ts) d = after_opens ts (allow_open t d).0

-- The clock does not go back, from `now` on.
abbrev pub Ascending : ℕ → List ℕ → Type 0
Ascending now [] = Unit {0}
Ascending now (t ∷ ts) = (now ≤ t) × Ascending t ts

abbrev pub last_of : ℕ → List ℕ → ℕ
last_of now [] = now
last_of now (t ∷ ts) = last_of t ts

abbrev pub in_window : ℕ → ℕ → Bool
in_window w t = leb w t && ltb t (w + open_rate_window)

keep-append {ℓ} :
    {A : Type ℓ} (p : A → Bool) (xs ys : List A) → keep p (xs ++ ys) ≡ keep p xs ++ keep p ys
keep-append p [] ys = refl
keep-append p (x ∷ xs) ys = ground (arith, keep-append p xs ys)

-- A later time keeps no more of a window than an earlier one has kept.
keep-recent :
    (now t : ℕ) (xs : List ℕ)
    → now ≤ t
    → keep (recent t) (keep (recent now) xs) ≡ keep (recent t) xs
keep-recent now t [] h = refl
keep-recent now t (x ∷ xs) h = ground (arith, keep-recent now t xs h)

-- What counts in a window that ends after `now` is still kept at `now`.
length-window-le :
    (w now : ℕ) (xs : List ℕ)
    → now < w + open_rate_window
    → length (keep (in_window w) xs) ≤ length (keep (recent now) xs)
length-window-le w now [] h = omega arith
length-window-le w now (x ∷ xs) h = ground (arith, length-window-le w now xs h)

leb-false : (a b : ℕ) → leb a b ≡ false → b < a
leb-false a b h = ground arith

window_end : (w now : ℕ) → in_window w now ≡ true → now < w + open_rate_window
window_end w now h = ground arith

length-keep-none : (p : ℕ → Bool) (x : ℕ) → p x ≡ false → length (keep p (x ∷ [])) ≡ 0
length-keep-none p x h = rw h

-- `past` are the opens allowed so far: the daemon's window holds those of them that still count.
pub record Tracks (past opens : List ℕ) (now : ℕ) : Type 0 where
  pub counts : (t : ℕ) → now ≤ t → keep (recent t) opens ≡ keep (recent t) past
  pub limited : (w : ℕ) → length (keep (in_window w) past) ≤ open_rate_limit

Tracks-later :
    {past opens : List ℕ} {now : ℕ} (t : ℕ) → now ≤ t → Tracks past opens now → Tracks past opens t
Tracks-later t h k = record { counts = λ u le. k.counts u (omega arith); limited = k.limited }

Tracks-refused :
    {past opens : List ℕ} (now : ℕ)
    → Tracks past opens now
    → Tracks past (keep (recent now) opens) now
Tracks-refused {past} {opens} now k = record {
  counts = λ t h. keep-recent now t opens h ∙ k.counts t h;
  limited = k.limited;
}

Tracks-allowed :
    {past opens : List ℕ} (now : ℕ)
    → length (keep (recent now) opens) < open_rate_limit
    → Tracks past opens now
    → Tracks (past ++ now ∷ []) (keep (recent now) opens ++ now ∷ []) now
Tracks-allowed {past} {opens} now room k = record {
  counts = λ t h.
      keep-append (recent t) (keep (recent now) opens) (now ∷ [])
      ∙ ap (λ l. l ++ keep (recent t) (now ∷ [])) (keep-recent now t opens h ∙ k.counts t h)
      ∙ sym (keep-append (recent t) past (now ∷ []));
  limited = λ w. window_limited w;
}
  where
    le : now ≤ now
    le = omega arith

    split :
        (w : ℕ)
        → length (keep (in_window w) (past ++ now ∷ []))
          ≡ length (keep (in_window w) past) + length (keep (in_window w) (now ∷ []))
    split w =
        ap length (keep-append (in_window w) past (now ∷ []))
        ∙ length-append (keep (in_window w) past) (keep (in_window w) (now ∷ []))

    window_limited : (w : ℕ) → length (keep (in_window w) (past ++ now ∷ [])) ≤ open_rate_limit
    window_limited w = elim (Bool-cases (in_window w now)) [
      | inl inside ↦ omega (
        arith,
        split w,
        length-window-le w now past (window_end w now inside),
        ap length (k.counts now le),
        length-keep-le (in_window w) (now ∷ []),
      )
      | inr outside ↦
          omega (arith, split w, length-keep-none (in_window w) now outside, k.limited w)
    ]

-- One open, whatever it is answered.
allow_open-Tracks :
    (past : List ℕ) (d : Daemon) (now t : ℕ)
    → now ≤ t
    → Tracks past d.opens now
    → Tracks (if (allow_open t d).1 then past ++ t ∷ [] else past) (allow_open t d).0.opens t
unfolding allow_open allow_opens
allow_open-Tracks past d now t h k =
    elim (Bool-cases (leb open_rate_limit (length (keep (recent t) d.opens)))) [
      | inl full ↦ rw full (Tracks-refused t (Tracks-later t h k))
      | inr room ↦ rw room (Tracks-allowed t (leb-false _ _ room) (Tracks-later t h k))
    ]

opens-Tracks :
    (ts past : List ℕ) (d : Daemon) (now : ℕ)
    → Ascending now ts
    → Tracks past d.opens now
    → Tracks (past ++ granted ts d) (after_opens ts d).opens (last_of now ts)
unfolding granted after_opens
opens-Tracks [] past d now asc k = rw append-nil k
opens-Tracks (t ∷ ts) past d now asc k =
    let next = allow_open-Tracks past d now t asc.0 k in
    elim (Bool-cases (allow_open t d).1) [
      | inl allowed ↦
          rw (allowed, ← append_assoc past (t ∷ []) (granted ts (allow_open t d).0))
            (opens-Tracks ts (past ++ t ∷ []) (allow_open t d).0 t asc.1 (rw allowed at next))
      | inr refused ↦
          rw refused (opens-Tracks ts past (allow_open t d).0 t asc.1 (rw refused at next))
    ]

module _ (tr : Transport) (start : ℕ) (ts : List ℕ) (asc : Ascending start ts) where
  history :
      Tracks (granted ts (new_daemon tr)) (after_opens ts (new_daemon tr)).opens (last_of start ts)
  unfolding new_daemon
  history =
      opens-Tracks ts [] (new_daemon tr) start asc
        (record { counts = λ t h. refl; limited = λ w. omega arith })

  -- While the clock does not go back, no window of a minute holds more than 10 allowed opens.
  pub granted-le-limit :
      (w : ℕ) → length (keep (in_window w) (granted ts (new_daemon tr))) ≤ open_rate_limit
  granted-le-limit w = history.limited w

  -- While the clock does not go back, an open is refused exactly if 10 or more opens of the minute
  -- before it were allowed: a refused open does not count.
  pub allow_open-refused :
      (now : ℕ)
      → last_of start ts ≤ now
      → ((allow_open now (after_opens ts (new_daemon tr))).1 ≡ false)
        ↔ (open_rate_limit ≤ length (keep (recent now) (granted ts (new_daemon tr))))
  unfolding allow_open allow_opens
  allow_open-refused now h = rw (history.counts now h) (ground arith, ground arith)
