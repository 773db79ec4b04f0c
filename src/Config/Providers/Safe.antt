-- ===== src/Config/Providers/Safe.antt =====
-- internal/config/providers.go: where a provider's box is made, and what its name may be.
use devvm.Prelude.{
  ℕ, true, false, ◌≡◌, inl, inr, refl, List, [], ◌∷◌, ◌++◌, Option, none, some, ◌==◌, ==_iff,
  if_rule, Bool-cases, is_empty, All, arith,
}
use devvm.Text.{Text, codes, prepend}
use devvm.Config.HubName.{is_alnum, is_name_char, all_name_chars, valid_name}
use devvm.Config.Templates.{TemplateSpec, resolve}
use devvm.Config.Templates.Layers.{chain}
use devvm.Config.Templates.Valid.{SpecErr, is_placement, valid_placement, validate}
use devvm.Config.Templates.Valid.Safe.{resolve-IsSafe}
use devvm.Config.Providers.{
  ProviderSpec, ProviderErr, placement_errors, validate_provider, pick, placement,
  default_server_type, default_location, default_image, label_chars, is_label, split_dots,
  all_labels, valid_server_name,
}

-- A value that the provider's API may be sent.
abbrev pub IsName : Text → Type 0
IsName v = is_placement v ≡ true

abbrev IsNameOrUnset : Text → Type 0
IsNameOrUnset v = (is_empty v ≡ false) → IsName v

valid_placement-IsNameOrUnset : (key v : Text) → valid_placement key v ≡ none → IsNameOrUnset v
unfolding valid_placement
valid_placement-IsNameOrUnset key v h n = elim (Bool-cases (is_placement v)) [
  | inl k ↦ k
  | inr k ↦ let h' = rw (n, k) at h in absurd (cc)
]

pick-IsName :
    (vs : List Text) (last : Text)
    → All IsNameOrUnset vs
    → IsName last
    → is_empty last ≡ false
    → IsName (pick (vs ++ last ∷ []))
unfolding pick
pick-IsName [] last h k n = rw n k
pick-IsName (v ∷ vs) last h k n = if_rule IsName (is_empty v) (λ e. pick-IsName vs last h.1 k n) h.0

no_errors :
    (o : Option SpecErr) (rest : List ProviderErr)
    → placement_errors o ++ rest ≡ []
    → (o ≡ none) × (rest ≡ [])
no_errors none rest h = (refl, h)
no_errors (some e) rest h = absurd (cc)

none_of : (o : Option SpecErr) → placement_errors o ≡ [] → o ≡ none
none_of none h = refl
none_of (some e) h = absurd (cc)

front_empty {ℓ} : {A : Type ℓ} (a b : List A) → a ++ b ≡ [] → a ≡ []
front_empty [] b h = refl
front_empty (x ∷ a) b h = absurd (cc)

validate_provider-IsNameOrUnset :
    (p : ProviderSpec) → validate_provider p ≡ [] → IsNameOrUnset p.location × IsNameOrUnset p.image
unfolding validate_provider
validate_provider-IsNameOrUnset p h =
    let (l, r) =
      no_errors (valid_placement (codes "location") p.location) _
        (front_empty _ _ (front_empty _ _ h)) in
    let i = none_of (valid_placement (codes "image") p.image) r in
    (
      valid_placement-IsNameOrUnset (codes "location") p.location l,
      valid_placement-IsNameOrUnset (codes "image") p.image i,
    )

default_names : IsName default_server_type × IsName default_location × IsName default_image
unfolding is_placement all_name_chars is_name_char is_alnum
default_names = (refl, refl, refl)

-- A box of a template whose layers pass Validate, at a provider whose table passes its check, is
-- made with a server type, a location and an image that are well-formed names by the rule for them,
-- never empty.
pub placement-IsName :
    (s : TemplateSpec) (ls : List TemplateSpec) (name : Text) (p : ProviderSpec)
    → validate s ≡ none
    → All (λ l. validate l ≡ none) ls
    → validate_provider p ≡ []
    → let q = placement (resolve (chain s ls) name) p in
      IsName q.server_type × IsName q.location × IsName q.image
unfolding placement
placement-IsName s ls name p h k v =
    let t = resolve (chain s ls) name in
    let (_, _, _, server, location, image) = resolve-IsSafe s ls name h k in
    let (l, i) = validate_provider-IsNameOrUnset p v in
    let (ds, dl, di) = default_names in
    (
      pick-IsName (t.server_type ∷ []) default_server_type
          (valid_placement-IsNameOrUnset (codes "server_type") t.server_type server, tt) ds refl,
      pick-IsName (t.location ∷ p.location ∷ []) default_location
          (valid_placement-IsNameOrUnset (codes "location") t.location location, (l, tt)) dl refl,
      pick-IsName (t.image ∷ p.image ∷ []) default_image
          (valid_placement-IsNameOrUnset (codes "image") t.image image, (i, tt)) di refl,
    )

abbrev IsChars : List Text → Type 0
IsChars ls = All (λ l. label_chars l ≡ true) ls

label_char_name :
    (c : ℕ) (s : Text)
    → label_chars (c ∷ s) ≡ true
    → (is_name_char c ≡ true) × (label_chars s ≡ true)
unfolding label_chars is_name_char is_alnum
label_char_name c s h = ground arith

prepend-IsChars :
    (c : ℕ) (ls : List Text) → IsChars (prepend c ls) → (is_name_char c ≡ true) × IsChars ls
prepend-IsChars c [] (h, k) = ((label_char_name c [] h).0, tt)
prepend-IsChars c (l ∷ ls) (h, k) = let (n, t) = label_char_name c l h in (n, (t, k))

dot_name : is_name_char b'.' ≡ true
unfolding is_name_char is_alnum
dot_name = refl

split_dots-names : (s : Text) → IsChars (split_dots s) → all_name_chars s ≡ true
unfolding split_dots all_name_chars
split_dots-names [] h = refl
split_dots-names (c ∷ s) h = elim (Bool-cases (c == b'.')) [
  | inl k ↦ let h' = rw k at h in rw ((==_iff c b'.').0 k, dot_name, split_dots-names s h'.1) refl
  | inr k ↦
      let (n, t) = prepend-IsChars c (split_dots s) (rw k at h) in rw (n, split_dots-names s t) refl
]

names_tail : (c : ℕ) (s : Text) → all_name_chars (c ∷ s) ≡ true → all_name_chars s ≡ true
unfolding all_name_chars
names_tail c s h = ground arith

label_parts : (l : Text) → is_label l ≡ true → label_chars l ≡ true
unfolding is_label
label_parts l h = ground arith

all_labels-IsChars : (ls : List Text) → all_labels ls ≡ true → IsChars ls
unfolding all_labels
all_labels-IsChars [] h = tt
all_labels-IsChars (l ∷ ls) h = (label_parts l (ground arith), all_labels-IsChars ls (ground arith))

label_start : (c : ℕ) (l : Text) → is_label (c ∷ l) ≡ true → is_alnum c ≡ true
unfolding is_label is_alnum
label_start c l h = ground arith

no_label : is_label [] ≡ false
unfolding is_label
no_label = refl

first_label : (c : ℕ) (ls : List Text) → all_labels (prepend c ls) ≡ true → is_alnum c ≡ true
unfolding all_labels
first_label c [] h = label_start c [] (ground arith)
first_label c (l ∷ ls) h = label_start c l (ground arith)

labels-start : (c : ℕ) (s : Text) → all_labels (split_dots (c ∷ s)) ≡ true → is_alnum c ≡ true
unfolding split_dots all_labels
labels-start c s h = elim (Bool-cases (c == b'.')) [
  | inl k ↦ let h' = rw (k, no_label) at h in absurd (cc)
  | inr k ↦ first_label c (split_dots s) (rw k at h)
]

server_labels :
    (n : Text)
    → valid_server_name n ≡ true
    → (is_empty n ≡ false) × (all_labels (split_dots n) ≡ true)
unfolding valid_server_name
server_labels n h = ground arith

-- A name that a provider takes for a server is a name that devvm takes for a machine.
pub valid_server_name-valid_name : (n : Text) → valid_server_name n ≡ true → valid_name n ≡ true
unfolding valid_name
valid_server_name-valid_name [] h = absurd (ground (arith, server_labels [] h))
valid_server_name-valid_name (c ∷ s) h =
    let l = (server_labels (c ∷ s) h).1 in
    let names = split_dots-names (c ∷ s) (all_labels-IsChars (split_dots (c ∷ s)) l) in
    let tail : all_name_chars s ≡ true = names_tail c s names in rw (labels-start c s l, tail) refl
