-- ===== src/Config/Templates.antt =====
-- internal/config/templates.go: the layers of template values, their order, and the check of each.
-- A nil pointer is `none`; a slice is a list, with nil for the empty one. The tables of devvm.toml,
-- which the TOML library reads, come as an association list; an int is a natural number or `negsuc`,
-- the negation of one more.
pub mod Layers
pub mod RoundTrip
pub mod Valid
use devvm.Prelude.{
  ℕ, Bool, true, false, not, ◌&&◌, ◌||◌, List, [], ◌∷◌, Option, none, some, ltb, leb, ◌==◌,
  if◌then◌else◌, is_empty, length,
}
use devvm.Text.{Text, codes, eq_text, trim_space}

pub data ℤ : Type 0 where
  pos : ℕ → ℤ
  negsuc : ℕ → ℤ

pub record TemplateSpec : Type 0 where
  pub user : Option Text
  pub hook : Option Text
  pub memory : Option ℤ
  pub disk : Option ℤ
  pub repos : Option (List Text)
  pub ports : Option (List Text)
  pub authorized_keys_github : Option (List Text)
  pub authorized_keys : Option (List Text)
  pub harden : Option Bool
  pub fail2ban : Option Bool
  pub server_type : Option Text
  pub location : Option Text
  pub image : Option Text
  pub ipv4 : Option Bool

-- `TemplateSpec{}`.
abbrev pub no_spec : TemplateSpec
no_spec = record {
  user = none;
  hook = none;
  memory = none;
  disk = none;
  repos = none;
  ports = none;
  authorized_keys_github = none;
  authorized_keys = none;
  harden = none;
  fail2ban = none;
  server_type = none;
  location = none;
  image = none;
  ipv4 = none;
}

pub record Template : Type 0 where
  pub name : Text
  pub user : Text
  pub hook : Text
  pub memory : ℤ
  pub disk : ℤ
  pub repos : List Text
  pub ports : List Text
  pub authorized_keys_github : List Text
  pub authorized_keys : List Text
  pub harden : Bool
  pub fail2ban : Bool
  pub server_type : Text
  pub location : Text
  pub image : Text
  pub ipv4 : Option Bool

unfoldable pub blank : Option Text → Bool
blank none = true
blank (some v) = is_empty (trim_space v)

-- A field that is set wins; a text that is blank counts as unset.
abbrev pub set_or {ℓ} : {A : Type ℓ} → Option A → Option A → Option A
set_or none lower = lower
set_or (some v) lower = some v

unfoldable pub text_or : Option Text → Option Text → Option Text
text_or v lower = if blank v then lower else v

-- `Under`.
unfoldable pub under : TemplateSpec → TemplateSpec → TemplateSpec
unfolding text_or
under s lower = record {
  user = text_or s.user lower.user;
  hook = text_or s.hook lower.hook;
  memory = set_or s.memory lower.memory;
  disk = set_or s.disk lower.disk;
  repos = set_or s.repos lower.repos;
  ports = set_or s.ports lower.ports;
  authorized_keys_github = set_or s.authorized_keys_github lower.authorized_keys_github;
  authorized_keys = set_or s.authorized_keys lower.authorized_keys;
  harden = set_or s.harden lower.harden;
  fail2ban = set_or s.fail2ban lower.fail2ban;
  server_type = text_or s.server_type lower.server_type;
  location = text_or s.location lower.location;
  image = text_or s.image lower.image;
  ipv4 = set_or s.ipv4 lower.ipv4;
}

abbrev pub default_user : Text
default_user = codes "dev"

abbrev pub default_hook : Text
default_hook = codes "none"

-- `*p`, with what stands there for a nil pointer.
abbrev pub value_or {ℓ} : {A : Type ℓ} → A → Option A → A
value_or d none = d
value_or d (some v) = v

-- The user, as it is written: only the empty one is no user.
unfoldable pub resolve_user : Option Text → Text
resolve_user none = default_user
resolve_user (some u) = if is_empty u then default_user else u

unfoldable pub resolve_hook : Option Text → Text
resolve_hook none = default_hook
resolve_hook (some h) = if is_empty (trim_space h) then default_hook else trim_space h

unfoldable pub trimmed : Option Text → Text
trimmed none = []
trimmed (some v) = trim_space v

-- `Resolve`.
unfoldable pub resolve : TemplateSpec → Text → Template
unfolding resolve_user resolve_hook trimmed
resolve s name = record {
  name = name;
  user = resolve_user s.user;
  hook = resolve_hook s.hook;
  memory = value_or (pos 0) s.memory;
  disk = value_or (pos 0) s.disk;
  repos = value_or [] s.repos;
  ports = value_or [] s.ports;
  authorized_keys_github = value_or [] s.authorized_keys_github;
  authorized_keys = value_or [] s.authorized_keys;
  harden = value_or false s.harden;
  fail2ban = value_or false s.fail2ban;
  server_type = trimmed s.server_type;
  location = trimmed s.location;
  image = trimmed s.image;
  ipv4 = s.ipv4;
}

-- `opt`.
unfoldable pub opt : Text → Option Text
opt v = if is_empty v then none else some v

-- `Spec`.
unfoldable pub spec : Template → TemplateSpec
unfolding opt
spec t = record {
  user = some t.user;
  hook = some t.hook;
  memory = some t.memory;
  disk = some t.disk;
  repos = some t.repos;
  ports = some t.ports;
  authorized_keys_github = some t.authorized_keys_github;
  authorized_keys = some t.authorized_keys;
  harden = some t.harden;
  fail2ban = some t.fail2ban;
  server_type = opt t.server_type;
  location = opt t.location;
  image = opt t.image;
  ipv4 = t.ipv4;
}

-- The `[templates.*]` tables, by name.
abbrev pub Templates : Type 0
Templates = List (Text × TemplateSpec)

unfoldable pub template : Text → Templates → Option TemplateSpec
template n [] = none
template n ((k, s) ∷ ts) = if eq_text k n then some s else template n ts

abbrev pub default_name : Text
default_name = codes "default"

-- `TemplateLayers`: the named table and the default one; `none` where there is no such template.
unfoldable pub template_layers : Templates → Text → Option (TemplateSpec × TemplateSpec)
unfolding template
template_layers ts name =
    let def = value_or no_spec (template default_name ts) in
    if is_empty name || eq_text name default_name
    then some (def, def)
    else elim (template name ts) [ none ↦ none | some s ↦ some (s, def) ]
