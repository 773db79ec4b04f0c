-- ===== src/Config/Templates/Valid/Safe.antt =====
-- What the layers that pass `Validate` resolve to.
use devvm.Prelude.{
  ℕ, false, ◌≡◌, inl, inr, refl, List, [], ◌∷◌, Option, none, some, if_rule, Bool-cases, is_empty,
  All, All-map,
}
use devvm.Text.{Text, codes}
use devvm.Config.Templates.{
  ℤ, pos, TemplateSpec, Template, blank, set_or, text_or, under, resolve, resolve_user, trimmed,
  value_or, default_user,
}
use devvm.Config.Templates.Layers.{chain}
use devvm.Config.Templates.Valid.{
  SpecErr, small_memory, small_disk, valid_user, valid_placement, or_else, check_user, too_small,
  check_size, check_placement, validate,
}

-- What the template is used for accepts its values.
abbrev pub IsSafe : Template → Type 0
IsSafe t =
    (valid_user t.user ≡ none)
    × (too_small 512 t.memory ≡ false)
    × (too_small 1 t.disk ≡ false)
    × (valid_placement (codes "server_type") t.server_type ≡ none)
    × (valid_placement (codes "location") t.location ≡ none)
    × (valid_placement (codes "image") t.image ≡ none)

or_else-none : (a b : Option SpecErr) → or_else a b ≡ none → (a ≡ none) × (b ≡ none)
or_else-none none b h = (refl, h)
or_else-none (some x) b h = absurd (cc)

-- The checks of the fields, one by one.
abbrev FieldsFine : TemplateSpec → Type 0
FieldsFine s =
    (check_user s.user ≡ none)
    × (check_size small_memory 512 s.memory ≡ none)
    × (check_size small_disk 1 s.disk ≡ none)
    × (check_placement (codes "server_type") s.server_type ≡ none)
    × (check_placement (codes "location") s.location ≡ none)
    × (check_placement (codes "image") s.image ≡ none)

validate-FieldsFine : (s : TemplateSpec) → validate s ≡ none → FieldsFine s
unfolding validate
validate-FieldsFine s h =
    let (a, h1) = or_else-none (check_user s.user) _ h in
    let (b, h2) = or_else-none (check_size small_memory 512 s.memory) _ h1 in
    let (c, h3) = or_else-none (check_size small_disk 1 s.disk) _ h2 in
    let (d, h4) = or_else-none (check_placement (codes "server_type") s.server_type) _ h3 in
    let (e, f) = or_else-none (check_placement (codes "location") s.location) _ h4 in
    (a, b, c, d, e, f)

text_or-rule {κ} : (P : Option Text → Type κ) (v w : Option Text) → P v → P w → P (text_or v w)
unfolding text_or
text_or-rule P v w h k = if_rule P (blank v) (λ e. k) (λ e. h)

set_or-rule {ℓ κ} :
    {A : Type ℓ} (P : Option A → Type κ) (v w : Option A) → P v → P w → P (set_or v w)
set_or-rule P none w h k = k
set_or-rule P (some v) w h k = h

under-FieldsFine : (s l : TemplateSpec) → FieldsFine s → FieldsFine l → FieldsFine (under s l)
unfolding under
under-FieldsFine s l (a, b, c, d, e, f) (a', b', c', d', e', f') = (
  text_or-rule (λ v. check_user v ≡ none) s.user l.user a a',
  set_or-rule (λ v. check_size small_memory 512 v ≡ none) s.memory l.memory b b',
  set_or-rule (λ v. check_size small_disk 1 v ≡ none) s.disk l.disk c c',
  text_or-rule (λ v. check_placement (codes "server_type") v ≡ none) s.server_type l.server_type d
      d',
  text_or-rule (λ v. check_placement (codes "location") v ≡ none) s.location l.location e e',
  text_or-rule (λ v. check_placement (codes "image") v ≡ none) s.image l.image f f',
)

chain-FieldsFine :
    (s : TemplateSpec) (ls : List TemplateSpec)
    → FieldsFine s
    → All FieldsFine ls
    → FieldsFine (chain s ls)
unfolding chain
chain-FieldsFine s [] h k = h
chain-FieldsFine s (l ∷ ls) h k = chain-FieldsFine (under s l) ls (under-FieldsFine s l h k.0) k.1

default_user-valid : valid_user default_user ≡ none
unfolding valid_user
default_user-valid = refl

safe_user : (v : Option Text) → check_user v ≡ none → valid_user (resolve_user v) ≡ none
unfolding check_user resolve_user
safe_user none h = refl
safe_user (some u) h = elim (Bool-cases (is_empty u)) [
  | inl e ↦ rw e default_user-valid
  | inr e ↦ rw e (rw e at h)
]

safe_size :
    (err : SpecErr) (low : ℕ) (v : Option ℤ)
    → check_size err low v ≡ none
    → too_small low (value_or (pos 0) v) ≡ false
unfolding check_size
safe_size err low none h = refl
safe_size err low (some v) h = elim (Bool-cases (too_small low v)) [
  | inr e ↦ e
  | inl e ↦ let h' = rw e at h in absurd (cc)
]

safe_placement :
    (key : Text) (v : Option Text)
    → check_placement key v ≡ none
    → valid_placement key (trimmed v) ≡ none
unfolding check_placement trimmed valid_placement
safe_placement key none h = refl
safe_placement key (some v) h = h

-- Layers that each pass Validate resolve, in any order and number, to a template whose user is a
-- login name that setup may create, never root, whose memory is 0 or 512 and more, whose disk is 0
-- or more, and whose server type, location and image are empty or valid names, spaces trimmed.
pub resolve-IsSafe :
    (s : TemplateSpec) (ls : List TemplateSpec) (name : Text)
    → validate s ≡ none
    → All (λ l. validate l ≡ none) ls
    → IsSafe (resolve (chain s ls) name)
unfolding resolve
resolve-IsSafe s ls name h k =
    let (a, b, c, d, e, f) =
      chain-FieldsFine s ls (validate-FieldsFine s h)
        (All-map (λ l. validate l ≡ none) FieldsFine ls validate-FieldsFine k) in
    let r = chain s ls in
    (
      safe_user r.user a,
      safe_size small_memory 512 r.memory b,
      safe_size small_disk 1 r.disk c,
      safe_placement (codes "server_type") r.server_type d,
      safe_placement (codes "location") r.location e,
      safe_placement (codes "image") r.image f,
    )
