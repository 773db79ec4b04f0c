-- ===== src/Config/Templates/Layers.antt =====
-- The order of the layers: what a chain of `Under` makes of each field.
use devvm.Prelude.{
  ◌≡◌, inl, inr, refl, ◌∙◌, List, [], ◌∷◌, map, Option, none, some, Bool-cases, if◌then◌else◌,
}
use devvm.Text.{Text}
use devvm.Config.Templates.{TemplateSpec, blank, set_or, text_or, under}

-- `flags.Under(named).Under(def)`, for any layers.
unfoldable pub chain : TemplateSpec → List TemplateSpec → TemplateSpec
chain s [] = s
chain s (l ∷ ls) = chain (under s l) ls

-- The first text that is not blank, or the last of all.
unfoldable pub first_text : Option Text → List (Option Text) → Option Text
first_text v [] = v
first_text v (w ∷ ws) = let rest = first_text w ws in if blank v then rest else v

-- The first value that is set.
unfoldable pub first_set {ℓ} : {A : Type ℓ} → Option A → List (Option A) → Option A
first_set v [] = v
first_set none (w ∷ ws) = first_set w ws
first_set (some v) (w ∷ ws) = some v

first_text-text_or :
    (v w : Option Text) (ws : List (Option Text))
    → first_text (text_or v w) ws ≡ first_text v (w ∷ ws)
unfolding first_text text_or
first_text-text_or v w [] = refl
first_text-text_or v w (x ∷ xs) = elim (Bool-cases (blank v)) [
  | inl b ↦ rw b refl
  | inr b ↦ rw (b, b) refl
]

first_set-set_or {ℓ} :
    {A : Type ℓ} (v w : Option A) (ws : List (Option A))
    → first_set (set_or v w) ws ≡ first_set v (w ∷ ws)
unfolding first_set
first_set-set_or none w ws = refl
first_set-set_or (some v) w [] = refl
first_set-set_or (some v) w (x ∷ xs) = refl

-- Each field by itself.
abbrev pub firsts : TemplateSpec → List TemplateSpec → TemplateSpec
firsts s ls = record {
  user = first_text s.user (map (λ l. l.user) ls);
  hook = first_text s.hook (map (λ l. l.hook) ls);
  memory = first_set s.memory (map (λ l. l.memory) ls);
  disk = first_set s.disk (map (λ l. l.disk) ls);
  repos = first_set s.repos (map (λ l. l.repos) ls);
  ports = first_set s.ports (map (λ l. l.ports) ls);
  authorized_keys_github =
      first_set s.authorized_keys_github (map (λ l. l.authorized_keys_github) ls);
  authorized_keys = first_set s.authorized_keys (map (λ l. l.authorized_keys) ls);
  harden = first_set s.harden (map (λ l. l.harden) ls);
  fail2ban = first_set s.fail2ban (map (λ l. l.fail2ban) ls);
  server_type = first_text s.server_type (map (λ l. l.server_type) ls);
  location = first_text s.location (map (λ l. l.location) ls);
  image = first_text s.image (map (λ l. l.image) ls);
  ipv4 = first_set s.ipv4 (map (λ l. l.ipv4) ls);
}

firsts-under :
    (s l : TemplateSpec) (ls : List TemplateSpec) → firsts (under s l) ls ≡ firsts s (l ∷ ls)
unfolding under
firsts-under s l ls = simp (first_text-text_or, first_set-set_or)

-- A chain of layers, merged by Under from the left, has in each of the fourteen fields the first
-- value that is set in the layers' order; a blank text is passed over, unless it is the last, and a
-- false, a zero or an empty list is not.
pub chain-firsts : (s : TemplateSpec) (ls : List TemplateSpec) → chain s ls ≡ firsts s ls
unfolding chain first_text first_set
chain-firsts s [] = refl
chain-firsts s (l ∷ ls) = chain-firsts (under s l) ls ∙ firsts-under s l ls
