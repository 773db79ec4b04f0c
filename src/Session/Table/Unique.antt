-- ===== src/Session/Table/Unique.antt =====
-- The table keeps one record for each guest port.
use devvm.Prelude.{
  ℕ, Bool, true, false, ◌≡◌, refl, sym, ◌∙◌, [], ◌∷◌, none, some, arith, All, All-keep, ◌==◌,
  if_rule, keep, ==_refl,
}
use devvm.Session.Fwd.{Fwd}
use devvm.Session.Table.{Table, find, put, erase, IsFree, IsMap}
use devvm.Session.Table.Rules.{All-put}

pub IsFree-find : (g : ℕ) (fs : Table) → IsFree g fs → find g fs ≡ none
unfolding find
IsFree-find g [] k = refl
IsFree-find g (x ∷ fs) k = ground (arith, IsFree-find g fs k.1)

pub IsMap-put : (f : Fwd) (fs : Table) → IsMap fs → IsMap (put f fs)
unfolding put
IsMap-put f [] m = (tt, tt)
IsMap-put f (x ∷ fs) m =
    if_rule IsMap (x.guest == f.guest) (λ e. (free (ground arith) m.0, m.1))
      (λ e.
        (All-put (λ y. (y.guest == x.guest) ≡ false) f fs (ground arith) m.0, IsMap-put f fs m.1))
  where
    free : x.guest ≡ f.guest → IsFree x.guest fs → IsFree f.guest fs
    free e k = rw (← e) k

pub IsMap-keep : (p : Fwd → Bool) (fs : Table) → IsMap fs → IsMap (keep p fs)
IsMap-keep p [] m = tt
IsMap-keep p (x ∷ fs) m =
    if_rule IsMap (p x)
      (λ e. (All-keep (λ y. (y.guest == x.guest) ≡ false) p fs m.0, IsMap-keep p fs m.1))
      (λ e. IsMap-keep p fs m.1)

pub IsMap-erase : (g : ℕ) (fs : Table) → IsMap fs → IsMap (erase g fs)
unfolding erase
IsMap-erase g fs m = IsMap-keep _ fs m

-- What holds of each record that is found holds of every record.
pub All-of_find {κ} :
    (P : Fwd → Type κ) (fs : Table)
    → IsMap fs
    → ((g : ℕ) (f : Fwd) → find g fs ≡ some f → P f)
    → All P fs
unfolding find
All-of_find P [] m h = tt
All-of_find P (f ∷ fs) m h = (
  h f.guest f (rw (==_refl f.guest)),
  All-of_find P fs m.1 (λ g x e. h g x (
      if_rule (λ o. o ≡ some x) (f.guest == g)
        (λ hit. absurd (none-ne-some (sym (none_at g hit) ∙ e))) (λ miss. e))),
)
  where
    none_at : (g : ℕ) → (f.guest == g) ≡ true → find g fs ≡ none
    none_at g hit = let q : f.guest ≡ g = ground arith in rw (← q) (IsFree-find f.guest fs m.0)

    none-ne-some : {x : Fwd} → none ≡ some x → ⊥
    none-ne-some e = cc
