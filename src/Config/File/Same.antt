-- ===== src/Config/File/Same.antt =====
-- `sameExcept` of internal/config/edit.go: two parses that differ in one entry at most. What
-- `reflect.DeepEqual` says of an entry and of a template, field by field; of maps, by their keys.
pub mod Sound
use devvm.Prelude.{
  Bool, true, false, not, ◌&&◌, ◌||◌, ◌≡◌, inl, inr, refl, ap, List, [], ◌∷◌, Option, none, some,
  ◌==◌, ==_iff, Bool-cases, arith, subst,
}
use devvm.Text.{Text, eq_text}
use devvm.Text.Laws.{eq_text_eq}
use devvm.Config.Templates.{ℤ, pos, negsuc, TemplateSpec}
use devvm.Config.Entry.{Entry}
use devvm.Config.File.{NameTable, lookup, File}

abbrev pub same_bool : Bool → Bool → Bool
same_bool true b = b
same_bool false b = not b

abbrev pub same_int : ℤ → ℤ → Bool
same_int (pos n) (pos m) = n == m
same_int (negsuc n) (negsuc m) = n == m
same_int _ _ = false

abbrev pub same_option {ℓ} : {A : Type ℓ} → (A → A → Bool) → Option A → Option A → Bool
same_option same none none = true
same_option same (some a) (some b) = same a b
same_option same _ _ = false

abbrev pub same_texts : List Text → List Text → Bool
same_texts [] [] = true
same_texts (a ∷ as_) (b ∷ bs) = eq_text a b && same_texts as_ bs
same_texts _ _ = false

unfoldable pub same_entry : Entry → Entry → Bool
unfolding eq_text
same_entry a b =
    eq_text a.backend b.backend
    && (same_option same_bool a.managed b.managed
        && (eq_text a.host b.host
            && (eq_text a.user b.user
                && (eq_text a.transport b.transport
                    && (eq_text a.mosh_server b.mosh_server
                        && (eq_text a.identity b.identity
                            && same_int a.connect_timeout b.connect_timeout))))))

unfoldable pub same_spec : TemplateSpec → TemplateSpec → Bool
unfolding eq_text
same_spec a b =
    same_option eq_text a.user b.user
    && (same_option eq_text a.hook b.hook
        && (same_option same_int a.memory b.memory
            && (same_option same_int a.disk b.disk
                && (same_option same_texts a.repos b.repos
                    && (same_option same_texts a.ports b.ports
                        && (same_option same_texts a.authorized_keys_github b.authorized_keys_github
                            && (same_option same_texts a.authorized_keys b.authorized_keys
                                && (same_option same_bool a.harden b.harden
                                    && (same_option same_bool a.fail2ban b.fail2ban
                                        && (same_option eq_text a.server_type b.server_type
                                            && (same_option eq_text a.location b.location
                                                && (same_option eq_text a.image b.image
                                                    && same_option same_bool a.ipv4
                                                        b.ipv4))))))))))))

-- Every pair whose key does not pass `skip` stands in the other table, with the same value.
unfoldable pub all_in {ℓ} :
    {A : Type ℓ} → (A → A → Bool) → (Text → Bool) → NameTable A → NameTable A → Bool
unfolding lookup
all_in same skip [] b = true
all_in same skip ((n, v) ∷ a) b =
    (skip n || same_option same (some v) (lookup n b)) && all_in same skip a b

unfoldable pub same_except : File → File → Text → Bool
unfolding all_in same_spec same_entry eq_text
same_except a b name =
    all_in same_spec (λ n. false) a.templates b.templates
    && all_in same_spec (λ n. false) b.templates a.templates
    && all_in same_entry (λ n. eq_text n name) a.entries b.entries
    && all_in (λ x y. true) (λ n. eq_text n name) b.entries a.entries
