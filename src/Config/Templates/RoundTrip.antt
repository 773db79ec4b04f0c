-- ===== src/Config/Templates/RoundTrip.antt =====
-- A resolved template, sent as a layer, and resolved again.
use devvm.Prelude.{
  Bool, [], ◌∷◌, nil_of_empty, false, ◌≡◌, inl, inr, refl, sym, ◌∙◌, ap, Option, none, some,
  Bool-cases, is_empty,
}
use devvm.Text.{Text, trim_space, trim_left, trim_right}
use devvm.Text.Trim.{trim_space_twice}
use devvm.Config.Templates.{
  TemplateSpec, Template, blank, set_or, text_or, under, resolve, resolve_user, resolve_hook,
  trimmed, opt, spec, default_hook,
}

-- The user of a template is never empty, and its hook is trimmed and not blank.
resolve_user_twice : (v : Option Text) → resolve_user (some (resolve_user v)) ≡ resolve_user v
unfolding resolve_user
resolve_user_twice none = refl
resolve_user_twice (some u) = elim (Bool-cases (is_empty u)) [
  | inl h ↦ rw h refl
  | inr h ↦ rw (h, h) refl
]

default_hook-trim_space : trim_space default_hook ≡ default_hook
unfolding trim_space
default_hook-trim_space = refl

hook-blank : (v : Option Text) → blank (some (resolve_hook v)) ≡ false
unfolding resolve_hook blank
hook-blank none = ap is_empty default_hook-trim_space
hook-blank (some h) = elim (Bool-cases (is_empty (trim_space h))) [
  | inl e ↦ rw e (ap is_empty default_hook-trim_space)
  | inr e ↦ rw e (ap is_empty (trim_space_twice h) ∙ e)
]

resolve_hook_twice : (v : Option Text) → resolve_hook (some (resolve_hook v)) ≡ resolve_hook v
unfolding resolve_hook
resolve_hook_twice none = rw default_hook-trim_space refl
resolve_hook_twice (some h) = elim (Bool-cases (is_empty (trim_space h))) [
  | inl e ↦ rw e (rw default_hook-trim_space refl)
  | inr e ↦ rw e (rw (trim_space_twice h, e) refl)
]

trimmed-opt : (v : Option Text) → trimmed (opt (trimmed v)) ≡ trimmed v
unfolding trimmed opt
trimmed-opt none = refl
trimmed-opt (some v) = elim (Bool-cases (is_empty (trim_space v))) [
  | inl e ↦ rw e (sym (nil_of_empty (trim_space v) e))
  | inr e ↦ rw e (trim_space_twice v)
]

-- A resolved template, made a layer by Spec and resolved again under its name, is the same
-- template.
pub resolve-spec :
    (s : TemplateSpec) (name : Text) → resolve (spec (resolve s name)) name ≡ resolve s name
unfolding resolve spec
resolve-spec s name = simp (resolve_user_twice, resolve_hook_twice, trimmed-opt)

text_or-full : (v w : Option Text) → blank v ≡ false → text_or v w ≡ v
unfolding text_or
text_or-full v w h = rw h refl

-- A placement value that is stated stays; where it is not, the lower layer's is taken, its spaces
-- trimmed, and without one it stays open.
abbrev pub FilledText : Text → Option Text → Text → Type 0
FilledText [] none r = r ≡ []
FilledText [] (some v) r = r ≡ trim_space v
FilledText (c ∷ s) lower r = r ≡ c ∷ s

abbrev pub FilledChoice : Option Bool → Option Bool → Option Bool → Type 0
FilledChoice none lower r = r ≡ lower
FilledChoice (some b) lower r = r ≡ some b

pub record FilledFrom (lower : TemplateSpec) (t r : Template) : Type 0 where
  pub name : r.name ≡ t.name
  pub user : r.user ≡ t.user
  pub hook : r.hook ≡ t.hook
  pub memory : r.memory ≡ t.memory
  pub disk : r.disk ≡ t.disk
  pub repos : r.repos ≡ t.repos
  pub ports : r.ports ≡ t.ports
  pub authorized_keys_github : r.authorized_keys_github ≡ t.authorized_keys_github
  pub authorized_keys : r.authorized_keys ≡ t.authorized_keys
  pub harden : r.harden ≡ t.harden
  pub fail2ban : r.fail2ban ≡ t.fail2ban
  pub server_type : FilledText t.server_type lower.server_type r.server_type
  pub location : FilledText t.location lower.location r.location
  pub image : FilledText t.image lower.image r.image
  pub ipv4 : FilledChoice t.ipv4 lower.ipv4 r.ipv4

filled_text :
    (t : Text) (lower : Option Text)
    → trim_space t ≡ t
    → FilledText t lower (trimmed (text_or (opt t) lower))
unfolding trimmed text_or opt blank
filled_text [] none h = refl
filled_text [] (some v) h = refl
filled_text (c ∷ s) lower h = rw (h) (rw h refl)

trimmed-trim_space : (v : Option Text) → trim_space (trimmed v) ≡ trimmed v
unfolding trimmed trim_space trim_left trim_right
trimmed-trim_space none = refl
trimmed-trim_space (some v) = trim_space_twice v

filled_choice : (b lower : Option Bool) → FilledChoice b lower (set_or b lower)
filled_choice none lower = refl
filled_choice (some b) lower = refl

-- A resolved template whose user is not blank, sent as a layer and put over any other layer,
-- resolves to itself but for the placement. A server type, a location, an image or an IPv4 choice
-- that the template states stays too; one that it leaves open is the lower layer's, with the spaces
-- of a text trimmed, and stays open where the lower layer has none.
pub resolve-under-spec :
    (s lower : TemplateSpec) (name : Text)
    → blank (some (resolve_user s.user)) ≡ false
    → FilledFrom lower (resolve s name) (resolve (under (spec (resolve s name)) lower) name)
unfolding resolve spec under
resolve-under-spec s lower name h = record {
  name = refl;
  user =
      ap resolve_user (text_or-full (some (resolve_user s.user)) lower.user h)
      ∙ resolve_user_twice s.user;
  hook =
      ap resolve_hook (text_or-full (some (resolve_hook s.hook)) lower.hook (hook-blank s.hook))
      ∙ resolve_hook_twice s.hook;
  memory = refl;
  disk = refl;
  repos = refl;
  ports = refl;
  authorized_keys_github = refl;
  authorized_keys = refl;
  harden = refl;
  fail2ban = refl;
  server_type =
      filled_text (trimmed s.server_type) lower.server_type (trimmed-trim_space s.server_type);
  location = filled_text (trimmed s.location) lower.location (trimmed-trim_space s.location);
  image = filled_text (trimmed s.image) lower.image (trimmed-trim_space s.image);
  ipv4 = filled_choice s.ipv4 lower.ipv4;
}
