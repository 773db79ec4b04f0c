-- ===== src/Tests/Templates.antt =====
-- Runs of the templates, and their theorems at small layers.
use devvm.Prelude.{true, false, ◌≡◌, refl, [], ◌∷◌, none, some}
use devvm.Text.{codes, trim_space, eq_text}
use devvm.Config.Templates.{
  pos, negsuc, TemplateSpec, no_spec, under, resolve, resolve_user, spec, blank, template_layers,
}
use devvm.Config.Templates.Layers.{chain, firsts}
use devvm.Config.Templates.RoundTrip.{FilledFrom, resolve-under-spec}
use devvm.Config.Templates.Layers.{chain-firsts}
use devvm.Config.Templates.Valid.{validate, root_user, small_memory}
use devvm.Config.Providers.{ProviderSpec, validate_provider, placement, valid_server_name}
use devvm.Config.Providers.Safe.{IsName, placement-IsName}
use devvm.Config.Templates.Valid.Safe.{IsSafe, resolve-IsSafe}

-- Flags with a user, and a template with a blank hook and little else.
abbrev flags : TemplateSpec
flags = record no_spec { user = some (codes "ann"); ipv4 = some false }

abbrev web : TemplateSpec
web = record no_spec {
  user = some (codes "web");
  hook = some (codes "  ");
  memory = some (pos 2048);
  repos = some [];
  image = some (codes " debian-13 ");
}

abbrev fallback : TemplateSpec
fallback = record no_spec {
  hook = some (codes "dotfiles ");
  memory = some (pos 512);
  repos = some (codes "me/site" ∷ []);
}

resolved_hook : (resolve (chain flags (web ∷ fallback ∷ [])) (codes "web")).hook ≡ codes "dotfiles"
unfolding resolve chain under blank trim_space
resolved_hook = refl

asked : template_layers ((codes "web", web) ∷ (codes "default", fallback) ∷ []) (codes "api") ≡ none
unfolding template_layers eq_text
asked = refl

root_refused : validate (record no_spec { user = some (codes "root") }) ≡ some root_user
unfolding validate
root_refused = refl

memory_refused : validate (record no_spec { memory = some (negsuc 3) }) ≡ some small_memory
unfolding validate
memory_refused = refl

chain-firsts_example : chain flags (web ∷ fallback ∷ []) ≡ firsts flags (web ∷ fallback ∷ [])
chain-firsts_example = chain-firsts flags (web ∷ fallback ∷ [])

resolve-under-spec_example :
    FilledFrom fallback
      (resolve web (codes "web"))
      (resolve (under (spec (resolve web (codes "web"))) fallback) (codes "web"))
unfolding blank trim_space resolve_user
resolve-under-spec_example = resolve-under-spec web fallback (codes "web") refl

resolve-IsSafe_example : IsSafe (resolve (chain flags (web ∷ fallback ∷ [])) (codes "web"))
unfolding validate trim_space
resolve-IsSafe_example =
    resolve-IsSafe flags (web ∷ fallback ∷ []) (codes "web") refl (refl, (refl, tt))

abbrev table : ProviderSpec
table = record {
  location = codes "fsn1";
  image = codes "debian-12";
  ssh_key = [];
  ssh_key_file = codes "~/.ssh/id.pub";
  ipv4 = some false;
}

table_passes : validate_provider table ≡ []
unfolding validate_provider
table_passes = refl

layers_pass : (validate flags ≡ none) × (validate web ≡ none)
unfolding validate trim_space
layers_pass = (refl, refl)

placed_web : placement (resolve (chain flags (web ∷ [])) (codes "web")) table ≡ record {
  server_type = codes "cx23";
  location = codes "fsn1";
  image = codes "debian-13";
  ipv4 = false;
  ssh_key = [];
  ssh_key_file = codes "~/.ssh/id.pub";
}
unfolding placement resolve chain under trim_space blank
placed_web = refl

placement-IsName_example :
    let q = placement (resolve (chain flags (web ∷ [])) (codes "web")) table in
    IsName q.server_type × IsName q.location × IsName q.image
placement-IsName_example =
    placement-IsName flags (web ∷ []) (codes "web") table layers_pass.0 (layers_pass.1, tt)
      table_passes

server_names :
    (valid_server_name (codes "a-1.example.org") ≡ true)
    × (valid_server_name (codes "a_1") ≡ false)
    × (valid_server_name (codes "a-.b") ≡ false)
unfolding valid_server_name
server_names = (refl, refl, refl)
