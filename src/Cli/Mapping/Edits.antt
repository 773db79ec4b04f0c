-- ===== src/Cli/Mapping/Edits.antt =====
-- The edits of a saved list, by what the mappings mean.
use devvm.Prelude.{
  ℕ, true, false, ◌≡◌, inl, inr, refl, ◌∙◌, ap, List, [], ◌∷◌, ◌++◌, none, some, ==_refl,
  Bool-cases, Option-cases,
}
use devvm.Text.{Text, eq_text}
use devvm.Text.Laws.{eq_text_refl, eq_text_eq}
use devvm.Cli.Mapping.{
  mapping, parse_mapping, is_mapping, find_mapping_in, add_edit, unport_edit, saved_line, unport,
  unport_parsed,
}

-- A line that means the mapping is found, in any spelling.
find-append :
    (ports : List Text) (m : Text) (p g : ℕ)
    → find_mapping_in ports p g ≡ none
    → parse_mapping m ≡ mapping p g
    → find_mapping_in (ports ++ m ∷ []) p g ≡ some m
unfolding find_mapping_in
find-append [] m p g h e = rw (e, ==_refl p, ==_refl g) refl
find-append (x ∷ xs) m p g h e = elim (Bool-cases (is_mapping p g (parse_mapping x))) [
  | inl k ↦ let h' = rw k at h in absurd (cc)
  | inr k ↦ rw k (find-append xs m p g (rw k at h) e)
]

found_after-add_edit :
    (ports : List Text) (m : Text) (p g : ℕ)
    → parse_mapping m ≡ mapping p g
    → (x : Text) × (find_mapping_in (add_edit m p g ports) p g ≡ some x)
unfolding add_edit
found_after-add_edit ports m p g e = elim (Option-cases (find_mapping_in ports p g)) [
  | inl h ↦ (m, rw (h, add_edit) (find-append ports m p g h e))
  | inr (x, h) ↦ (x, rw (h, add_edit) h)
]

add_edit-found :
    (ports : List Text) (m : Text) (p g : ℕ) {x : Text}
    → find_mapping_in ports p g ≡ some x
    → add_edit m p g ports ≡ ports
unfolding add_edit
add_edit-found ports m p g h = rw (h, add_edit) refl

-- Once a mapping is added to a saved list, a lookup of its ports finds a line, and to add the same
-- ports again, in any spelling, changes nothing.
pub find-add_edit :
    (ports : List Text) (m other : Text) (p g : ℕ)
    → parse_mapping m ≡ mapping p g
    → ((x : Text) × (find_mapping_in (add_edit m p g ports) p g ≡ some x))
      × (add_edit other p g (add_edit m p g ports) ≡ add_edit m p g ports)
find-add_edit ports m other p g e =
    let found = found_after-add_edit ports m p g e in
    (found, add_edit-found (add_edit m p g ports) other p g {x = found.0} found.1)

-- A line that means another mapping is spelled otherwise.
spelled_apart :
    (x m : Text) (p g : ℕ)
    → parse_mapping m ≡ mapping p g
    → is_mapping p g (parse_mapping x) ≡ false
    → eq_text x m ≡ false
spelled_apart x m p g e k = elim (Bool-cases (eq_text x m)) [
  | inr q ↦ q
  | inl q ↦
      let same_mapping : parse_mapping x ≡ mapping p g = ap parse_mapping (eq_text_eq x m q) ∙ e in
      let hit : is_mapping p g (parse_mapping x) ≡ true =
        rw (same_mapping, ==_refl p, ==_refl g) refl in
      absurd (cc)
]

unport_edit-absent :
    (ports : List Text) (m : Text) (p g : ℕ)
    → parse_mapping m ≡ mapping p g
    → find_mapping_in ports p g ≡ none
    → unport_edit m (ports ++ m ∷ []) ≡ ports
unfolding unport_edit find_mapping_in
unport_edit-absent [] m p g e h = rw (eq_text_refl m) refl
unport_edit-absent (x ∷ xs) m p g e h = elim (Bool-cases (is_mapping p g (parse_mapping x))) [
  | inl k ↦ let h' = rw k at h in absurd (cc)
  | inr k ↦
      rw (spelled_apart x m p g e k)
        (ap (λ (t : List Text). x ∷ t) (unport_edit-absent xs m p g e (rw k at h)))
]

-- Where the saved list does not hold a mapping, it can be added in one spelling and removed by any
-- other: the removal finds the line that was added, and leaves the list as it was.
pub unport-add_edit :
    (ports : List Text) (m other : Text) (p g : ℕ)
    → parse_mapping m ≡ mapping p g
    → parse_mapping other ≡ mapping p g
    → find_mapping_in ports p g ≡ none
    → (unport (add_edit m p g ports) other ≡ saved_line m g)
      × (unport_edit m (add_edit m p g ports) ≡ ports)
unfolding add_edit unport unport_parsed
unport-add_edit ports m other p g e e' h = (
  rw (h, add_edit) (rw e' (rw (find-append ports m p g h e, unport_parsed) refl)),
  rw (h, add_edit) (unport_edit-absent ports m p g e h),
)
