-- ===== src/Config/Templates/Valid.antt =====
-- internal/config/templates.go: `Validate`, with `validPlacement` of internal/config/providers.go.
-- An error is what it is about; a nil error is `none`.
pub mod Safe
use devvm.Prelude.{
  ℕ, Bool, true, false, not, ◌&&◌, ◌||◌, [], ◌∷◌, Option, none, some, ltb, leb, ◌==◌, if◌then◌else◌,
  is_empty, length,
}
use devvm.Text.{Text, codes, eq_text, trim_space}
use devvm.Config.HubName.{is_alnum, is_name_char, all_name_chars}
use devvm.Config.Templates.{ℤ, pos, negsuc, TemplateSpec}

pub data SpecErr : Type 0 where
  invalid_user : Text → SpecErr
  root_user : SpecErr
  small_memory : SpecErr
  small_disk : SpecErr
  invalid_placement : Text → Text → SpecErr

abbrev pub user_start : ℕ → Bool
user_start c = leb 97 c && leb c 122 || c == 95

abbrev pub user_char : ℕ → Bool
user_char c = user_start c || leb 48 c && leb c 57 || c == 45

unfoldable pub all_user_chars : Text → Bool
all_user_chars [] = true
all_user_chars (c ∷ s) = user_char c && all_user_chars s

-- `userRe`: ^[a-z_][a-z0-9_-]{0,31}$.
unfoldable pub is_login : Text → Bool
unfolding all_user_chars
is_login [] = false
is_login (c ∷ s) = user_start c && all_user_chars s && leb (length s) 31

-- `ValidUser`.
unfoldable pub valid_user : Text → Option SpecErr
unfolding is_login eq_text
valid_user u =
    if not (is_login u)
    then some (invalid_user u)
    else if eq_text u (codes "root")
    then some root_user
    else none

-- `placementRe`: ^[A-Za-z0-9][A-Za-z0-9._-]*$.
unfoldable pub is_placement : Text → Bool
unfolding is_alnum all_name_chars
is_placement [] = false
is_placement (c ∷ s) = is_alnum c && all_name_chars s

-- `validPlacement`.
unfoldable pub valid_placement : Text → Text → Option SpecErr
unfolding is_placement
valid_placement key v =
    if not (is_empty v) && not (is_placement v) then some (invalid_placement key v) else none

-- The returns one after the other: the first error, if there is one.
abbrev pub or_else : Option SpecErr → Option SpecErr → Option SpecErr
or_else none e = e
or_else (some x) e = some x

unfoldable pub check_user : Option Text → Option SpecErr
unfolding valid_user
check_user none = none
check_user (some u) = if is_empty u then none else valid_user u

-- `*p != 0 && *p < low`.
abbrev pub too_small : ℕ → ℤ → Bool
too_small low (pos n) = not (n == 0) && ltb n low
too_small low (negsuc n) = true

unfoldable pub check_size : SpecErr → ℕ → Option ℤ → Option SpecErr
check_size err low none = none
check_size err low (some v) = if too_small low v then some err else none

unfoldable pub check_placement : Text → Option Text → Option SpecErr
unfolding valid_placement
check_placement key none = none
check_placement key (some v) = valid_placement key (trim_space v)

-- `Validate`.
unfoldable pub validate : TemplateSpec → Option SpecErr
unfolding check_user check_size check_placement
validate s = or_else (check_user s.user) (
    or_else (check_size small_memory 512 s.memory) (
      or_else (check_size small_disk 1 s.disk) (
        or_else (check_placement (codes "server_type") s.server_type) (
          or_else (check_placement (codes "location") s.location)
            (check_placement (codes "image") s.image)))))
