-- ===== src/Config/HubName/RoundTrip.antt =====
-- The display form and the runtime form of a name give each other back.
use devvm.Prelude.{
  ℕ, true, false, ◌&&◌, ◌≡◌, inl, inr, refl, ap, subst, [], ◌∷◌, arith, ◌==◌, ==_refl, Bool-cases,
  Option-cases,
}
use devvm.Text.{Text, cut, lacks}
use devvm.Text.Laws.{cut-append, cut-some, lacks-append}
use devvm.Config.HubName.{
  hub_sep, runtime_sep, is_alnum, is_name_char, all_name_chars, valid_name, parts, check_parts,
  split_hub_name, join_hub_name, replace_first, runtime_name, display_name, valid_ports_name,
  valid_split,
}

-- A character that no name has.
name_chars-lacks :
    (c : ℕ) (s : Text) → is_name_char c ≡ false → all_name_chars s ≡ true → lacks c s ≡ true
unfolding all_name_chars lacks
name_chars-lacks c [] n h = refl
name_chars-lacks c (x ∷ s) n h = elim (Bool-cases (x == c)) [
  | inl e ↦
      let bad = subst (λ y. is_name_char y ≡ false) {x = c} {y = x} (ground arith) n in
      absurd (ground arith)
  | inr e ↦ rw e (name_chars-lacks c s n (ground arith))
]

pub valid_name-lacks :
    (c : ℕ) (s : Text) → is_name_char c ≡ false → valid_name s ≡ true → lacks c s ≡ true
unfolding valid_name all_name_chars is_name_char
valid_name-lacks c [] n h = absurd (cc)
valid_name-lacks c (x ∷ s) n h = name_chars-lacks c (x ∷ s) n (alnum_first x s h)
  where
    alnum_first :
        (x : ℕ) (s : Text) → (is_alnum x && all_name_chars s) ≡ true → all_name_chars (x ∷ s) ≡ true
    alnum_first x s h = ground arith

pub valid_ports_name-lacks :
    (c : ℕ) (name : Text)
    → is_name_char c ≡ false
    → (hub_sep == c) ≡ false
    → valid_ports_name name ≡ true
    → lacks c name ≡ true
unfolding valid_ports_name valid_split split_hub_name check_parts lacks
valid_ports_name-lacks c name n ne h = elim (Option-cases (cut hub_sep name)) [
  | inl k ↦ valid_name-lacks c name n (rw k at h)
  | inr ((hub, machine), k) ↦
      let h' = rw k at h in
      elim (Bool-cases (valid_name hub)) [
        | inr v ↦ let h'' = rw v at h' in absurd (cc)
        | inl v ↦
            let h'' = rw v at h' in
            elim (Bool-cases (valid_name machine)) [
              | inr w ↦ let z = rw w at h'' in absurd (cc)
              | inl w ↦ rw (cut-some hub_sep name {a = hub} {b = machine} k) (
                  lacks-append c hub (hub_sep ∷ machine) (valid_name-lacks c hub n v)
                    (rw ne (valid_name-lacks c machine n w)))
            ]
      ]
]

replace_first-replace_first :
    (a b : ℕ) (s : Text) → lacks b s ≡ true → replace_first b a (replace_first a b s) ≡ s
unfolding replace_first lacks
replace_first-replace_first a b [] h = refl
replace_first-replace_first a b (c ∷ s) h = elim (Bool-cases (c == a)) [
  | inl k ↦ rw (k, ==_refl b) (ap (λ x. x ∷ s) (ground arith))
  | inr k ↦
      let miss : (c == b) ≡ false = ground arith in
      rw (k, miss) (ap (λ x. c ∷ x) (replace_first-replace_first a b s (ground arith)))
]

hub_sep-outside : is_name_char hub_sep ≡ false
unfolding is_name_char is_alnum
hub_sep-outside = refl

runtime_sep-outside : is_name_char runtime_sep ≡ false
unfolding is_name_char is_alnum
runtime_sep-outside = refl

-- A hub's and a machine's name, both valid, are what the HUB/NAME made of them splits into.
pub split-join :
    (hub machine : Text)
    → valid_name hub ≡ true
    → valid_name machine ≡ true
    → split_hub_name (join_hub_name hub machine) ≡ parts hub machine
unfolding split_hub_name join_hub_name check_parts
split-join hub machine h m =
    rw (cut-append hub_sep hub machine (valid_name-lacks hub_sep hub hub_sep-outside h), h, m) refl

-- The display form of a name's runtime form is the name, for every name that saved forwards may
-- have.
pub display_name-runtime_name :
    (name : Text) → valid_ports_name name ≡ true → display_name (runtime_name name) ≡ name
unfolding display_name runtime_name valid_ports_name
display_name-runtime_name name h =
    replace_first-replace_first hub_sep runtime_sep name
      (valid_ports_name-lacks runtime_sep name runtime_sep-outside refl h)
