-- ===== src/Cli/Mapping/Lines.antt =====
-- A mapping that parses can stand on a line of the saved-forwards file.
use devvm.Prelude.{
  ℕ, ◌+◌, ◌-◌, ◌*◌, Bool, true, false, ◌&&◌, ◌≡◌, inl, inr, refl, sym, subst, [], ◌∷◌, ◌++◌, Option,
  none, some, leb, ◌==◌, arith, Bool-cases, Option-cases,
}
use devvm.Text.{Text, is_space, cut, trim_left, trim_space}
use devvm.Text.Laws.{cut-some}
use devvm.Text.Words.{no_space, no_space-lacks, no_space-trim_right, no_space-head}
use devvm.Text.Decimal.{Int64, parse_int, in_int64, atoi, digits_value}
use devvm.Config.Ports.{skipped}
use devvm.Config.Ports.RoundTrip.{IsLine}
use devvm.Cli.Mapping.{Mapping, mapping, mapping_of, split_port, parse_mapping}

digit-is_space : (c : ℕ) → (leb 48 c && leb c 57) ≡ true → is_space c ≡ false
unfolding is_space
digit-is_space c h = ground arith

no_space-cons :
    (c : ℕ) (s : Text) → is_space c ≡ false → no_space s ≡ true → no_space (c ∷ s) ≡ true
unfolding no_space
no_space-cons c s h k = rw (h, k) refl

no_space-nil : no_space [] ≡ true
unfolding no_space
no_space-nil = refl

digits_value-no_space :
    (acc : ℕ) (s : Text) {v : ℕ} → digits_value acc s ≡ some v → no_space s ≡ true
unfolding digits_value
digits_value-no_space acc [] h = no_space-nil
digits_value-no_space acc (c ∷ s) {v} h = elim (Bool-cases (leb 48 c && leb c 57)) [
  | inl k ↦
      no_space-cons c s (digit-is_space c k)
        (digits_value-no_space (acc * 10 + (c - 48)) s {v = v} (rw k at h))
  | inr k ↦ let h' = rw k at h in absurd (cc)
]

-- The text of a number: no space, and a digit in front.
abbrev IsNumber : Text → Type 0
IsNumber s = (no_space s ≡ true) × (skipped s ≡ false)

atoi-IsNumber : (s : Text) {v : ℕ} → atoi s ≡ some v → IsNumber s
unfolding atoi digits_value
atoi-IsNumber [] h = absurd (cc)
atoi-IsNumber (c ∷ s) {v} h = (
  digits_value-no_space 0 (c ∷ s) {v = v} h,
  elim (Bool-cases (leb 48 c && leb c 57)) [
    | inl k ↦ ground arith
    | inr k ↦ let h' = rw k at h in absurd (cc)
  ],
)

in_int64-some :
    (b : Bool) (o : Option ℕ) {i : Int64} → in_int64 b o ≡ some i → (v : ℕ) × (o ≡ some v)
unfolding in_int64
in_int64-some true none h = absurd (cc)
in_int64-some false none h = absurd (cc)
in_int64-some b (some v) h = (v, refl)

signed-IsNumber :
    (c : ℕ) (s : Text) {v : ℕ}
    → is_space c ≡ false
    → skipped (c ∷ s) ≡ false
    → atoi s ≡ some v
    → IsNumber (c ∷ s)
signed-IsNumber c s {v} h k e = (no_space-cons c s h (atoi-IsNumber s {v = v} e).0, k)

sign-is_space : (c : ℕ) → (c == b'-') ≡ true → is_space c ≡ false
unfolding is_space
sign-is_space c h = let at : c ≡ b'-' = ground arith in rw at refl

plus-is_space : (c : ℕ) → (c == b'+') ≡ true → is_space c ≡ false
unfolding is_space
plus-is_space c h = let at : c ≡ b'+' = ground arith in rw at refl

parse_int-IsNumber : (s : Text) {i : Int64} → parse_int s ≡ some i → IsNumber s
unfolding parse_int
parse_int-IsNumber [] h = absurd (cc)
parse_int-IsNumber (c ∷ s) {i} h = elim (Bool-cases (c == b'-')) [
  | inl k ↦
      let (v, e) = in_int64-some true (atoi s) {i = i} (rw k at h) in
      signed-IsNumber c s {v = v} (sign-is_space c k) (ground arith) e
  | inr k ↦ elim (Bool-cases (c == b'+')) [
    | inl l ↦
        let (v, e) = in_int64-some false (atoi s) {i = i} (rw (k, l) at h) in
        signed-IsNumber c s {v = v} (plus-is_space c l) (ground arith) e
    | inr l ↦
        let (v, e) = in_int64-some false (atoi (c ∷ s)) {i = i} (rw (k, l) at h) in
        atoi-IsNumber (c ∷ s) {v = v} e
  ]
]

not_a_mapping : {p g : ℕ} → Mapping.not_numeric ≡ mapping p g → ⊥
not_a_mapping e = cc

mapping_of-numbers :
    (x y : Option Int64) {p g : ℕ}
    → mapping_of x y ≡ mapping p g
    → ((i : Int64) × (x ≡ some i)) × ((j : Int64) × (y ≡ some j))
unfolding mapping_of
mapping_of-numbers none y h = absurd (not_a_mapping h)
mapping_of-numbers (some i) none h = absurd (not_a_mapping h)
mapping_of-numbers (some i) (some j) h = ((i, refl), (j, refl))

no_space-append : (a b : Text) → no_space a ≡ true → no_space b ≡ true → no_space (a ++ b) ≡ true
no_space-append [] b h k = k
no_space-append (c ∷ a) b h k =
    let (e, r) = no_space-head c a h in no_space-cons c (a ++ b) e (no_space-append a b r k)

skipped-append : (a b : Text) → skipped a ≡ false → skipped (a ++ b) ≡ false
skipped-append [] b h = absurd (cc)
skipped-append (c ∷ a) b h = h

no_space-IsLine : (s : Text) → IsNumber s → IsLine s
unfolding trim_space trim_left
no_space-IsLine [] (h, k) = absurd (cc)
no_space-IsLine (c ∷ s) (h, k) =
    let (e, r) = no_space-head c s h in
    (no_space-lacks (c ∷ s) h, rw e (no_space-trim_right (c ∷ s) h), k)

colon-is_space : is_space b':' ≡ false
unfolding is_space
colon-is_space = refl

pub parse_mapping-IsLine : (m : Text) {p g : ℕ} → parse_mapping m ≡ mapping p g → IsLine m
unfolding parse_mapping split_port
parse_mapping-IsLine m {p} {g} h = no_space-IsLine m (elim (Option-cases (cut b':' m)) [
  | inl e ↦
      let ((i, k), rest) =
        mapping_of-numbers (parse_int m) (parse_int m) {p = p} {g = g} (rw e at h) in
      parse_int-IsNumber m {i = i} k
  | inr ((a, b), e) ↦
      let ((i, k), (j, l)) =
        mapping_of-numbers (parse_int a) (parse_int b) {p = p} {g = g} (rw e at h) in
      let (na, sa) = parse_int-IsNumber a {i = i} k in
      let (nb, sb) = parse_int-IsNumber b {i = j} l in
      let at : m ≡ a ++ b':' ∷ b = cut-some b':' m {a = a} {b = b} e in
      subst IsNumber (sym at) (
        no_space-append a (b':' ∷ b) na (no_space-cons b':' b colon-is_space nb),
        skipped-append a (b':' ∷ b) sa,
      )
])
