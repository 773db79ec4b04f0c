-- ===== src/Config/File/Same/Sound.antt =====
-- Values that are the same by `sameExcept` of internal/config/edit.go are equal.
use devvm.Prelude.{
  Bool, true, false, ◌&&◌, ◌||◌, ◌≡◌, inl, inr, refl, ap, List, [], ◌∷◌, Option, none, some, ==_iff,
  Bool-cases, arith, subst,
}
use devvm.Text.{Text, eq_text}
use devvm.Text.Laws.{eq_text_eq}
use devvm.Config.Templates.{ℤ, pos, negsuc, TemplateSpec}
use devvm.Config.Entry.{Entry}
use devvm.Config.File.{NameTable, lookup, File}
use devvm.Config.File.Same.{
  same_bool, same_int, same_option, same_texts, same_entry, same_spec, all_in, same_except,
}

same_bool_eq : (a b : Bool) → same_bool a b ≡ true → a ≡ b
same_bool_eq true true h = refl
same_bool_eq false false h = refl
same_bool_eq true false h = absurd (cc)
same_bool_eq false true h = absurd (cc)

same_int_eq : (a b : ℤ) → same_int a b ≡ true → a ≡ b
same_int_eq (pos n) (pos m) h = ap pos ((==_iff n m).0 h)
same_int_eq (negsuc n) (negsuc m) h = ap negsuc ((==_iff n m).0 h)
same_int_eq (pos n) (negsuc m) h = absurd (cc)
same_int_eq (negsuc n) (pos m) h = absurd (cc)

same_option_eq {ℓ} :
    {A : Type ℓ} (same : A → A → Bool)
    → ((a b : A) → same a b ≡ true → a ≡ b)
    → (a b : Option A) → same_option same a b ≡ true
    → a ≡ b
same_option_eq same k none none h = refl
same_option_eq same k (some a) (some b) h = ap some (k a b h)
same_option_eq same k none (some b) h = absurd (cc)
same_option_eq same k (some a) none h = absurd (cc)

same_texts_eq : (a b : List Text) → same_texts a b ≡ true → a ≡ b
same_texts_eq [] [] h = refl
same_texts_eq (a ∷ s) (b ∷ t) h =
    let head : a ≡ b = eq_text_eq a b (ground arith) in
    let tail : s ≡ t = same_texts_eq s t (ground arith) in cc
same_texts_eq [] (b ∷ t) h = absurd (cc)
same_texts_eq (a ∷ s) [] h = absurd (cc)

pub and_parts : (a b : Bool) → (a && b) ≡ true → (a ≡ true) × (b ≡ true)
and_parts true b h = (refl, h)
and_parts false b h = absurd (cc)

same_entry_eq : (a b : Entry) → same_entry a b ≡ true → a ≡ b
unfolding same_entry
same_entry_eq a b h =
    let (h1, r1) = and_parts _ _ h in
    let (h2, r2) = and_parts _ _ r1 in
    let (h3, r3) = and_parts _ _ r2 in
    let (h4, r4) = and_parts _ _ r3 in
    let (h5, r5) = and_parts _ _ r4 in
    let (h6, r6) = and_parts _ _ r5 in
    let (h7, h8) = and_parts _ _ r6 in
    let e1 = eq_text_eq a.backend b.backend h1 in
    let e2 = same_option_eq same_bool same_bool_eq a.managed b.managed h2 in
    let e3 = eq_text_eq a.host b.host h3 in
    let e4 = eq_text_eq a.user b.user h4 in
    let e5 = eq_text_eq a.transport b.transport h5 in
    let e6 = eq_text_eq a.mosh_server b.mosh_server h6 in
    let e7 = eq_text_eq a.identity b.identity h7 in
    let e8 = same_int_eq a.connect_timeout b.connect_timeout h8 in cc

same_spec_eq : (a b : TemplateSpec) → same_spec a b ≡ true → a ≡ b
unfolding same_spec
same_spec_eq a b h =
    let (h1, r1) = and_parts _ _ h in
    let (h2, r2) = and_parts _ _ r1 in
    let (h3, r3) = and_parts _ _ r2 in
    let (h4, r4) = and_parts _ _ r3 in
    let (h5, r5) = and_parts _ _ r4 in
    let (h6, r6) = and_parts _ _ r5 in
    let (h7, r7) = and_parts _ _ r6 in
    let (h8, r8) = and_parts _ _ r7 in
    let (h9, r9) = and_parts _ _ r8 in
    let (h10, r10) = and_parts _ _ r9 in
    let (h11, r11) = and_parts _ _ r10 in
    let (h12, r12) = and_parts _ _ r11 in
    let (h13, h14) = and_parts _ _ r12 in
    let e1 = same_option_eq eq_text eq_text_eq a.user b.user h1 in
    let e2 = same_option_eq eq_text eq_text_eq a.hook b.hook h2 in
    let e3 = same_option_eq same_int same_int_eq a.memory b.memory h3 in
    let e4 = same_option_eq same_int same_int_eq a.disk b.disk h4 in
    let e5 = same_option_eq same_texts same_texts_eq a.repos b.repos h5 in
    let e6 = same_option_eq same_texts same_texts_eq a.ports b.ports h6 in
    let e7 =
      same_option_eq same_texts same_texts_eq a.authorized_keys_github b.authorized_keys_github
        h7 in
    let e8 = same_option_eq same_texts same_texts_eq a.authorized_keys b.authorized_keys h8 in
    let e9 = same_option_eq same_bool same_bool_eq a.harden b.harden h9 in
    let e10 = same_option_eq same_bool same_bool_eq a.fail2ban b.fail2ban h10 in
    let e11 = same_option_eq eq_text eq_text_eq a.server_type b.server_type h11 in
    let e12 = same_option_eq eq_text eq_text_eq a.location b.location h12 in
    let e13 = same_option_eq eq_text eq_text_eq a.image b.image h13 in
    let e14 = same_option_eq same_bool same_bool_eq a.ipv4 b.ipv4 h14 in cc

or_right : (a b : Bool) → (a || b) ≡ true → a ≡ false → b ≡ true
or_right true b h k = absurd (cc)
or_right false b h k = h

-- What the inclusion says of a key that is not skipped.
lookup-all_in {ℓ} :
    {A : Type ℓ} (same : A → A → Bool) (skip : Text → Bool) (a b : NameTable A) (n : Text) {v : A}
    → all_in same skip a b ≡ true
    → skip n ≡ false
    → lookup n a ≡ some v
    → same_option same (some v) (lookup n b) ≡ true
unfolding all_in lookup
lookup-all_in same skip [] b n h k e = absurd (cc)
lookup-all_in same skip ((m, w) ∷ a) b n {v} h k e = elim (Bool-cases (eq_text m n)) [
  | inl t ↦ let q : m ≡ n = eq_text_eq m n t in here q (cc) (rw t at e)
  | inr t ↦ lookup-all_in same skip a b n {v = v} (and_parts _ _ h).1 k (rw t at e)
]
  where
    here :
        m ≡ n
        → skip m ≡ false
        → ◌≡◌ {A = Option _} (some w) (some v)
        → same_option same (some v) (lookup n b) ≡ true
    here q x y =
        let t = or_right _ _ (and_parts _ _ h).0 x in
        subst (λ z. same_option same (some z) (lookup n b) ≡ true) {x = w} {y = v} (cc)
          (subst (λ (z : Text). same_option same (some w) (lookup z b) ≡ true) {x = m} {y = n} q t)

-- Two tables that each hold what the other does agree at every key that is not skipped.
lookup-same {ℓ} :
    {A : Type ℓ} (same other : A → A → Bool) (skip : Text → Bool) (a b : NameTable A) (n : Text)
    → ((x y : A) → same x y ≡ true → x ≡ y)
    → all_in same skip a b ≡ true
    → all_in other skip b a ≡ true
    → skip n ≡ false
    → lookup n b ≡ lookup n a
lookup-same {A} same other skip a b n eq h k s = compare_at (lookup n a) (lookup n b) refl refl
  where
    compare_at : (x y : Option A) → lookup n a ≡ x → lookup n b ≡ y → lookup n b ≡ lookup n a
    compare_at none none p q = cc
    compare_at none (some w) p q =
        let t = lookup-all_in other skip b a n {v = w} k s q in let t' = rw p at t in absurd (cc)
    compare_at (some v) none p q =
        let t = lookup-all_in same skip a b n {v = v} h s p in let t' = rw q at t in absurd (cc)
    compare_at (some v) (some w) p q =
        let t = lookup-all_in same skip a b n {v = v} h s p in
        let t' = rw q at t in let e = eq v w t' in cc

-- Two parses that are the same but for a name have the same templates, and the same entries of all
-- other names.
pub same_except-lookup :
    (a b : File) (name : Text)
    → same_except a b name ≡ true
    → ((n : Text) → lookup n b.templates ≡ lookup n a.templates)
      × ((n : Text) → eq_text n name ≡ false → lookup n b.entries ≡ lookup n a.entries)
unfolding same_except
same_except-lookup a b name h =
    let (h1, e2) = and_parts _ _ h in
    let (h2, e1) = and_parts _ _ h1 in
    let (t1, t2) = and_parts _ _ h2 in
    (
      (λ n.
          lookup-same same_spec same_spec (λ m. false) a.templates b.templates n same_spec_eq t1 t2
            refl),
      (λ n k.
          lookup-same same_entry (λ x y. true) (λ m. eq_text m name) a.entries b.entries n
            same_entry_eq e1 e2 k),
    )
