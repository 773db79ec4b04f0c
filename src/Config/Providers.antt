-- ===== src/Config/Providers.antt =====
-- internal/config/providers.go: the `[providers.NAME]` tables, the placement of a provider's box, and
-- the names that its servers may have.
pub mod Safe
use devvm.Prelude.{
  ℕ, Bool, true, false, not, ◌&&◌, ◌||◌, List, [], ◌∷◌, ◌++◌, Option, none, some, leb, ◌==◌,
  if◌then◌else◌, is_empty, length,
}
use devvm.Text.{Text, codes, lacks, newline, prepend}
use devvm.Config.Templates.{Template, TemplateSpec, blank}
use devvm.Config.Templates.Valid.{SpecErr, valid_placement}

pub record ProviderSpec : Type 0 where
  pub location : Text
  pub image : Text
  pub ssh_key : Text
  pub ssh_key_file : Text
  pub ipv4 : Option Bool

pub data ProviderErr : Type 0 where
  placement_error : SpecErr → ProviderErr
  two_keys : ProviderErr
  bad_ssh_key : ProviderErr

abbrev pub placement_errors : Option SpecErr → List ProviderErr
placement_errors none = []
placement_errors (some e) = placement_error e ∷ []

abbrev error_if : Bool → ProviderErr → List ProviderErr
error_if b e = if b then e ∷ [] else []

-- `ProviderSpec.validate`: every error.
unfoldable pub validate_provider : ProviderSpec → List ProviderErr
unfolding valid_placement lacks
validate_provider s =
    placement_errors (valid_placement (codes "location") s.location)
    ++ placement_errors (valid_placement (codes "image") s.image)
    ++ error_if (not (is_empty s.ssh_key) && not (is_empty s.ssh_key_file)) two_keys
    ++ error_if (not (lacks newline s.ssh_key && lacks 9 s.ssh_key)) bad_ssh_key

pub record Placement : Type 0 where
  pub server_type : Text
  pub location : Text
  pub image : Text
  pub ipv4 : Bool
  pub ssh_key : Text
  pub ssh_key_file : Text

-- The first that is set.
unfoldable pub pick : List Text → Text
pick [] = []
pick (v ∷ vs) = if is_empty v then pick vs else v

abbrev or_bool : Option Bool → Bool → Bool
or_bool none b = b
or_bool (some v) b = v

abbrev pub default_server_type : Text
default_server_type = codes "cx23"

abbrev pub default_location : Text
default_location = codes "nbg1"

abbrev pub default_image : Text
default_image = codes "ubuntu-24.04"

-- `Template.Placement`.
unfoldable pub placement : Template → ProviderSpec → Placement
unfolding pick
placement t p = record {
  server_type = pick (t.server_type ∷ default_server_type ∷ []);
  location = pick (t.location ∷ p.location ∷ default_location ∷ []);
  image = pick (t.image ∷ p.image ∷ default_image ∷ []);
  ipv4 = or_bool t.ipv4 (or_bool p.ipv4 true);
  ssh_key = p.ssh_key;
  ssh_key_file = p.ssh_key_file;
}

-- `ProviderFields`.
abbrev named_if : Bool → Text → List Text
named_if b n = if b then n ∷ [] else []

abbrev is_some {ℓ} : {A : Type ℓ} → Option A → Bool
is_some none = false
is_some (some v) = true

unfoldable pub provider_fields : TemplateSpec → List Text
unfolding blank
provider_fields s =
    named_if (not (blank s.server_type)) (codes "server_type")
    ++ named_if (not (blank s.location)) (codes "location")
    ++ named_if (not (blank s.image)) (codes "image")
    ++ named_if (is_some s.ipv4) (codes "ipv4")

-- `hostnameLabelRe`: [a-z0-9]([a-z0-9-]{0,61}[a-z0-9])?.
abbrev label_end : ℕ → Bool
label_end c = leb 97 c && leb c 122 || leb 48 c && leb c 57

unfoldable pub label_chars : Text → Bool
label_chars [] = true
label_chars (c ∷ s) = (label_end c || c == b'-') && label_chars s

unfoldable pub ends_label : Text → Bool
ends_label [] = false
ends_label (c ∷ []) = label_end c
ends_label (c ∷ d ∷ s) = ends_label (d ∷ s)

abbrev starts_label : Text → Bool
starts_label [] = false
starts_label (c ∷ s) = label_end c

unfoldable pub is_label : Text → Bool
unfolding label_chars ends_label
is_label l = starts_label l && label_chars l && ends_label l && leb (length l) 63

-- `strings.Split(name, ".")`.
unfoldable pub split_dots : Text → List Text
split_dots [] = [] ∷ []
split_dots (c ∷ s) = let rest = split_dots s in if c == b'.' then [] ∷ rest else prepend c rest

unfoldable pub all_labels : List Text → Bool
unfolding is_label
all_labels [] = true
all_labels (l ∷ ls) = is_label l && all_labels ls

-- `ValidServerName`.
unfoldable pub valid_server_name : Text → Bool
unfolding all_labels split_dots
valid_server_name name =
    not (is_empty name) && leb (length name) 253 && all_labels (split_dots name)
