-- ===== src/Config/File.antt =====
-- internal/config/file.go: `ParseFile`, over the tables that the TOML library decodes. A map is an
-- association list with each key once. The provider tables' own check is in Config/Providers.
pub mod Same
pub mod Users
use devvm.Prelude.{
  ℕ, Bool, true, false, not, ◌&&◌, ◌||◌, List, [], ◌∷◌, ◌++◌, Option, none, some, if◌then◌else◌,
  is_empty, map,
}
use devvm.Text.{Text, codes, eq_text}
use devvm.Config.HubName.{valid_name}
use devvm.Config.Entry.{Entry, EntryErr, Machine, Checked, fine, wrong, machine, hetzner}
use devvm.Config.Providers.{ProviderSpec, ProviderErr, validate_provider}
use devvm.Config.Templates.{TemplateSpec, default_name, default_user}
use devvm.Config.Templates.Valid.{SpecErr, validate, valid_user}

abbrev pub NameTable {ℓ} : Type ℓ → Type ℓ
NameTable A = List (Text × A)

unfoldable pub lookup {ℓ} : {A : Type ℓ} → Text → NameTable A → Option A
unfolding eq_text
lookup n [] = none
lookup n ((k, v) ∷ t) = if eq_text k n then some v else lookup n t

-- `rawFile`, with the keys that no field takes.
pub record RawFile : Type 0 where
  pub templates : NameTable TemplateSpec
  pub machines : NameTable Entry
  pub providers : NameTable ProviderSpec
  pub undecoded : List (List Text)

pub record File : Type 0 where
  pub templates : NameTable TemplateSpec
  pub entries : NameTable Entry
  pub providers : NameTable ProviderSpec
  pub machines : NameTable Machine
  pub def_user : Text

-- `undecodedError`.
pub data KeyErr : Type 0 where
  unknown_key : KeyErr
  unknown_in_table : Text → Text → List Text → KeyErr
  not_a_table : Text → List Text → KeyErr
  unknown_top_key : Text → KeyErr
  unknown_top_table : Text → KeyErr

abbrev is_family : Text → Bool
is_family k =
    eq_text k (codes "templates") || eq_text k (codes "machines") || eq_text k (codes "providers")

unfoldable pub undecoded_error : List Text → KeyErr
unfolding eq_text
undecoded_error [] = unknown_key
undecoded_error (k ∷ []) = if is_family k then not_a_table k [] else unknown_top_key k
undecoded_error (k ∷ n ∷ []) = if is_family k then not_a_table k (n ∷ []) else unknown_top_table k
undecoded_error (k ∷ n ∷ r ∷ rest) =
    if is_family k then unknown_in_table k n (r ∷ rest) else unknown_top_table k

pub data FileErr : Type 0 where
  key_error : KeyErr → FileErr
  template_name : Text → FileErr
  template_error : Text → SpecErr → FileErr
  unknown_provider : Text → FileErr
  provider_error : Text → List ProviderErr → FileErr
  entry_error : Text → EntryErr → FileErr

unfoldable pub template_errors : NameTable TemplateSpec → List FileErr
unfolding valid_name validate
template_errors [] = []
template_errors ((n, s) ∷ t) =
    let rest = template_errors t in
    if not (valid_name n)
    then template_name n ∷ rest
    else elim (validate s) [ none ↦ rest | some e ↦ template_error n e ∷ rest ]

-- `IsProviderBackend`.
unfoldable pub is_provider_backend : Text → Bool
unfolding eq_text
is_provider_backend b = eq_text b hetzner

unfoldable pub provider_errors : NameTable ProviderSpec → List FileErr
unfolding is_provider_backend validate_provider
provider_errors [] = []
provider_errors ((n, s) ∷ t) =
    let rest = provider_errors t in
    if not (is_provider_backend n)
    then unknown_provider n ∷ rest
    else if is_empty (validate_provider s)
    then rest
    else provider_error n (validate_provider s) ∷ rest

-- The default user: that of the default template, where it may be one.
unfoldable pub valid_or_default : Option Text → Text
unfolding valid_user
valid_or_default none = default_user
valid_or_default (some u) =
    if is_empty u then default_user else elim (valid_user u) [ none ↦ u | some e ↦ default_user ]

abbrev pub user_of : Option TemplateSpec → Option Text
user_of none = none
user_of (some s) = s.user

unfoldable pub file_user : NameTable TemplateSpec → Text
unfolding valid_or_default lookup
file_user ts = valid_or_default (user_of (lookup default_name ts))

-- The entries as records, and the errors of those that are wrong.
abbrev pub add_entry :
    Text → Checked Machine → NameTable Machine × List FileErr → NameTable Machine × List FileErr
add_entry n (fine m) (ms, errs) = ((n, m) ∷ ms, errs)
add_entry n (wrong w) (ms, errs) = (ms, entry_error n w ∷ errs)

unfoldable pub check_entries :
    (Text → Bool) → Text → NameTable Entry → NameTable Machine × List FileErr
unfolding machine
check_entries is_ip user [] = ([], [])
check_entries is_ip user ((n, e) ∷ t) =
    add_entry n (machine is_ip e n user) (check_entries is_ip user t)

unfoldable pub file_errors : (Text → Bool) → RawFile → List FileErr
unfolding undecoded_error template_errors provider_errors file_user check_entries
file_errors is_ip r =
    map (λ k. key_error (undecoded_error k)) r.undecoded
    ++ template_errors r.templates
    ++ provider_errors r.providers
    ++ (check_entries is_ip (file_user r.templates) r.machines).1

unfoldable pub file_of : (Text → Bool) → RawFile → File
unfolding file_user check_entries
file_of is_ip r = record {
  templates = r.templates;
  entries = r.machines;
  providers = r.providers;
  machines = (check_entries is_ip (file_user r.templates) r.machines).0;
  def_user = file_user r.templates;
}

pub data Parsed : Type 0 where
  parsed : File → Parsed
  malformed : Parsed
  invalid : List FileErr → Parsed

-- `ParseFile`: the decoder is the TOML library's.
unfoldable pub checked_file : (Text → Bool) → Option RawFile → Parsed
unfolding file_errors file_of
checked_file is_ip none = malformed
checked_file is_ip (some r) =
    if is_empty (file_errors is_ip r)
    then parsed (file_of is_ip r)
    else invalid (file_errors is_ip r)

unfoldable pub parse_file : (Text → Bool) → (Text → Option RawFile) → Text → Parsed
unfolding checked_file
parse_file is_ip decode file = checked_file is_ip (decode file)
