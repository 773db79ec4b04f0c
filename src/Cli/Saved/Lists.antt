-- ===== src/Cli/Saved/Lists.antt =====
-- What the edits of a saved list do to it, by what its lines mean as mappings.
use devvm.Prelude.{
  ℕ, true, false, ◌≡◌, inl, inr, refl, ap, List, [], ◌∷◌, some, arith, All, ◌≢◌, ◌⊎◌, none, ◌++◌,
  ==_refl, Bool-cases,
}
use devvm.Text.{Text, eq_text}
use devvm.Text.Laws.{eq_text_eq, eq_text_refl}
use devvm.Cli.Mapping.{
  Mapping, mapping, not_numeric, out_of_range, is_mapping, parse_mapping, find_mapping_in, add_edit,
  unport_edit,
}

-- No line means the mapping, and some line does; the first that does is `x`.
abbrev pub ListedNowhere : ℕ → ℕ → List Text → Type 0
ListedNowhere p g ports = All (λ l. parse_mapping l ≢ mapping p g) ports

abbrev pub IsListed : ℕ → ℕ → List Text → Type 0
IsListed p g [] = ⊥
IsListed p g (l ∷ ls) = (parse_mapping l ≡ mapping p g) ⊎ IsListed p g ls

abbrev pub IsFirst : ℕ → ℕ → Text → List Text → Type 0
IsFirst p g x [] = ⊥
IsFirst p g x (l ∷ ls) =
    ((parse_mapping l ≡ mapping p g) × (l ≡ x))
    ⊎ ((parse_mapping l ≢ mapping p g) × IsFirst p g x ls)

-- A list, and what is left of it without the lines that are `x`.
pub data Without (x : Text) : List Text → List Text → Type 0 where
  at_end : Without x [] []
  dropped : {l : Text} {ls rest : List Text} → l ≡ x → Without x ls rest → Without x (l ∷ ls) rest
  stays :
      {l : Text} {ls rest : List Text} → l ≢ x → Without x ls rest → Without x (l ∷ ls) (l ∷ rest)

is_mapping-eq : (p g : ℕ) (v : Mapping) → is_mapping p g v ≡ true → v ≡ mapping p g
is_mapping-eq p g (mapping h k) e = ground arith
is_mapping-eq p g not_numeric e = absurd (cc)
is_mapping-eq p g out_of_range e = absurd (cc)

is_mapping-ne : (p g : ℕ) (v : Mapping) → is_mapping p g v ≡ false → v ≢ mapping p g
is_mapping-ne p g v e h =
    let hit : is_mapping p g v ≡ true = rw (h, ==_refl p, ==_refl g) refl in cc

find_mapping_cases :
    (ports : List Text) (p g : ℕ)
    → ((find_mapping_in ports p g ≡ none) × ListedNowhere p g ports)
      ⊎ ((x : Text) × (find_mapping_in ports p g ≡ some x) × IsListed p g ports)
unfolding find_mapping_in
find_mapping_cases [] p g = inl (refl, tt)
find_mapping_cases (l ∷ ls) p g = elim (Bool-cases (is_mapping p g (parse_mapping l))) [
  | inl k ↦ inr (l, rw k refl, inl (is_mapping-eq p g (parse_mapping l) k))
  | inr k ↦ elim (find_mapping_cases ls p g) [
    | inl (e, all) ↦ inl (rw k e, (is_mapping-ne p g (parse_mapping l) k, all))
    | inr (x, e, there) ↦ inr (x, rw k e, inr there)
  ]
]

pub add_edit_cases :
    (ports : List Text) (m : Text) (p g : ℕ)
    → (ListedNowhere p g ports × (add_edit m p g ports ≡ ports ++ m ∷ []))
      ⊎ (IsListed p g ports × (add_edit m p g ports ≡ ports))
unfolding add_edit
add_edit_cases ports m p g = elim (find_mapping_cases ports p g) [
  | inl (e, all) ↦ inl (all, rw (e, add_edit) refl)
  | inr (x, e, there) ↦ inr (there, rw (e, add_edit) refl)
]

pub IsFirst-found :
    (p g : ℕ) (x : Text) (ports : List Text)
    → IsFirst p g x ports
    → find_mapping_in ports p g ≡ some x
unfolding find_mapping_in
IsFirst-found p g x [] h = absurd h
IsFirst-found p g x (l ∷ ls) (inl (means, is)) = rw (means, ==_refl p, ==_refl g) (ap some is)
IsFirst-found p g x (l ∷ ls) (inr (other, rest)) =
    elim (Bool-cases (is_mapping p g (parse_mapping l))) [
      | inl k ↦ absurd (other (is_mapping-eq p g (parse_mapping l) k))
      | inr k ↦ rw k (IsFirst-found p g x ls rest)
    ]

pub unport_edit-Without : (x : Text) (ports : List Text) → Without x ports (unport_edit x ports)
unfolding unport_edit
unport_edit-Without x [] = at_end
unport_edit-Without x (l ∷ ls) = elim (Bool-cases (eq_text l x)) [
  | inl k ↦ rw k (dropped (eq_text_eq l x k) (unport_edit-Without x ls))
  | inr k ↦
      let apart : l ≢ x = λ e. let same : eq_text l x ≡ true = rw e (eq_text_refl x) in cc in
      rw k (stays apart (unport_edit-Without x ls))
]
