-- ===== src/Reach/Since.antt =====
-- The time since when a box is in its state, over the writes of its file.
use devvm.Prelude.{
  ℕ, ◌^◌, ◌<◌, true, false, ◌≡◌, ◌≢◌, refl, sym, ◌∙◌, ap, subst, List, [], ◌∷◌, Option, some, arith,
  ◌==◌,
}
use devvm.Text.{Text, eq_text}
use devvm.Text.Laws.{eq_text_refl}
use devvm.Reach.{Entry, known_state, read, carried, write, text}
use devvm.Reach.RoundTrip.{parse-text}

-- The file after writes that succeed, the entries oldest first.
unfoldable pub write_all : List Entry → Option Text → Option Text
unfolding write
write_all [] file = file
write_all (e ∷ es) file = write_all es (write false e file)

-- An outcome of a probe: the state and when it was found, with the time since left to the file.
abbrev pub IsProbe : Text → Entry → Type 0
IsProbe s e = (e.state ≡ s) × (e.since ≡ 0) × (e.verified ≢ 0) × (e.verified < 2 ^ 63)

pub data Probes (s : Text) : List Entry → Type 0 where
  done : Probes s []
  probe : {e : Entry} → {es : List Entry} → IsProbe s e → Probes s es → Probes s (e ∷ es)

-- What `status` reads of the file.
abbrev pub Reads : Text → ℕ → Option Text → Type 0
Reads s t file = ((read file).state ≡ s) × ((read file).since ≡ t)

read-text :
    (s : Text) (t : ℕ) (e : Entry)
    → known_state s ≡ true
    → e.state ≡ s
    → e.since ≡ t
    → e.verified < 2 ^ 63
    → t < 2 ^ 63
    → Reads s t (some (text e))
unfolding read
read-text s t e known st si v small =
    let known' : known_state e.state ≡ true = ap known_state st ∙ known in
    let back = parse-text e known' v (subst (λ x. x < 2 ^ 63) (sym si) small) in
    (ap (λ x. x.state) back ∙ st, ap (λ x. x.since) back ∙ si)

carried-same :
    (s : Text) (t : ℕ) (e : Entry) (file : Option Text)
    → IsProbe s e
    → Reads s t file
    → t ≢ 0
    → carried file e ≡ record e { since = t }
unfolding carried
carried-same s t e file (st, si, ve, sm) (rs, rt) n =
    let held : (t == 0) ≡ false = ground arith in rw (si, rs, st, rt, eq_text_refl s, held) refl

carried-new :
    (s : Text) (e : Entry) (file : Option Text)
    → IsProbe s e
    → eq_text (read file).state s ≡ false
    → carried file e ≡ record e { since = e.verified }
unfolding carried
carried-new s e file (st, si, ve, sm) n = rw (si, st, n) refl

write-same :
    (s : Text) (t : ℕ) (e : Entry) (file : Option Text)
    → known_state s ≡ true
    → IsProbe s e
    → Reads s t file
    → t ≢ 0
    → t < 2 ^ 63
    → Reads s t (write false e file)
unfolding write
write-same s t e file known (st, si, ve, sm) r n small =
    subst (λ x. Reads s t (some (text x))) (sym (carried-same s t e file (st, si, ve, sm) r n))
      (read-text s t (record e { since = t }) known st refl sm small)

write_all-same :
    (s : Text) (t : ℕ) (es : List Entry) (file : Option Text)
    → known_state s ≡ true
    → Probes s es
    → Reads s t file
    → t ≢ 0
    → t < 2 ^ 63
    → Reads s t (write_all es file)
unfolding write_all
write_all-same s t [] file known p r n small = r
write_all-same s t (e ∷ es) file known (probe i p) r n small =
    write_all-same s t es (write false e file) known p (write-same s t e file known i r n small) n
      small

-- When probes find a box in one known state again and again, where the file said another state
-- before: after every write succeeds, the file reads that state, and since the time of the first of
-- these probes, not of a later one; the times are past 0 and below 2^63.
pub write_all-since :
    (s : Text) (e : Entry) (es : List Entry) (file : Option Text)
    → known_state s ≡ true
    → eq_text (read file).state s ≡ false
    → Probes s (e ∷ es)
    → Reads s e.verified (write_all (e ∷ es) file)
unfolding write_all write
write_all-since s e es file known new (probe (st, si, ve, sm) p) =
    let first : Reads s e.verified (write false e file) =
      subst (λ x. Reads s e.verified (some (text x)))
        (sym (carried-new s e file (st, si, ve, sm) new))
        (read-text s e.verified (record e { since = e.verified }) known st refl sm sm) in
    write_all-same s e.verified es (write false e file) known p first ve sm
