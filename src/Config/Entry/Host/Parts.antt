-- ===== src/Config/Entry/Host/Parts.antt =====
-- Pieces of a host, and results of the check of its port.
use devvm.Prelude.{
  ℕ, ◌≤◌, true, false, ◌&&◌, ◌≡◌, refl, [], ◌∷◌, ◌++◌, Option, none, some, leb, ◌==◌, arith,
  if_rule, is_empty,
}
use devvm.Text.{Text, has_prefix, lacks, newline}
use devvm.Text.Laws.{lacks-append, lacks-front}
use devvm.Text.Decimal.{Int64, plus, minus, parse_int}
use devvm.Config.Entry.{Checked, fine, wrong, in_port_range, with_port, no_separators}

-- A property of a result, where there is one.
abbrev pub IfFine {ℓ} : {A : Type ℓ} → (A → Type 0) → Checked A → Type 0
IfFine P (wrong e) = Unit
IfFine P (fine a) = P a

pub in_port_range-IfFine :
    (P : Text × ℕ → Type 0) (h : Text) (o : Option Int64)
    → ((n : ℕ) → 1 ≤ n → n ≤ 65535 → P (h, n))
    → IfFine P (in_port_range h o)
unfolding in_port_range
in_port_range-IfFine P h none k = tt
in_port_range-IfFine P h (some (minus n)) k = tt
in_port_range-IfFine P h (some (plus n)) k =
    if_rule (IfFine P) (leb 1 n && leb n 65535) (λ e. k n (ground arith) (ground arith)) (λ e. tt)

pub with_port-IfFine :
    (P : Text × ℕ → Type 0) (h p : Text)
    → P (h, 0)
    → ((n : ℕ) → 1 ≤ n → n ≤ 65535 → P (h, n))
    → IfFine P (with_port h p)
unfolding with_port
with_port-IfFine P h p z k =
    if_rule (IfFine P) (is_empty p) (λ e. z) (λ e. in_port_range-IfFine P h (parse_int p) k)

pub no_separators-append :
    (a b : Text) → no_separators a ≡ true → no_separators b ≡ true → no_separators (a ++ b) ≡ true
unfolding no_separators
no_separators-append a b h k =
    rw
      (
        lacks-append b' ' a b (ground arith) (ground arith),
        lacks-append 9 a b (ground arith) (ground arith),
        lacks-append newline a b (ground arith) (ground arith),
        lacks-append b'/' a b (ground arith) (ground arith),
      )
      refl

pub no_separators-front : (a b : Text) → no_separators (a ++ b) ≡ true → no_separators a ≡ true
unfolding no_separators
no_separators-front a b h =
    ground (
      arith,
      lacks-front b' ' a b,
      lacks-front 9 a b,
      lacks-front newline a b,
      lacks-front b'/' a b,
    )

pub no_separators-tail : (c : ℕ) (t : Text) → no_separators (c ∷ t) ≡ true → no_separators t ≡ true
unfolding no_separators lacks
no_separators-tail c t h = ground arith

pub lacks-tail : (d c : ℕ) (t : Text) → lacks d (c ∷ t) ≡ true → lacks d t ≡ true
unfolding lacks
lacks-tail d c t h = ground arith

pub no_dash_of : (c : ℕ) (t : Text) → has_prefix (b'-' ∷ []) (c ∷ t) ≡ false → (c == b'-') ≡ false
unfolding has_prefix
no_dash_of c t h = ground arith
