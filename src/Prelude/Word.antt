-- ===== src/Prelude/Word.antt =====
-- Go's `int`, 64 bits wide: sums and differences wrap around.
use Prim.Native.Nat.{ℕ, ◌+◌, ◌-◌, ◌%◌, ◌^◌, ◌≤◌, ◌<◌}
use mathlib.Core.Path.{◌≡◌, ap, sym, ◌∙◌}
use native.Mathlib.Omega.{arith}
use scale_authorizer.Prelude.Tests.{ltb, if◌then◌else◌}
use scale_authorizer.Prelude.Int.{
  ℤ, pos, negsuc, pos_part, neg_part, ◌+ℤ◌, ◌-ℤ◌, +ℤ_parts, -ℤ_parts,
}

-- The 64 bits of an integer, as a number.
unfoldable pub residue : ℤ → ℕ
residue (pos n) = n % 2 ^ 64
residue (negsuc n) = 2 ^ 64 - 1 - n % 2 ^ 64

-- The integer that 64 bits stand for, in two's complement.
unfoldable pub signed : ℕ → ℤ
signed m = if ltb m (2 ^ 63) then pos m else negsuc (2 ^ 64 - 1 - m)

unfoldable pub wrap : ℤ → ℤ
unfolding residue signed
wrap z = signed (residue z)

unfoldable pub add_int : ℤ → ℤ → ℤ
unfolding wrap ◌+ℤ◌
add_int a b = wrap (a +ℤ b)

unfoldable pub sub_int : ℤ → ℤ → ℤ
unfolding wrap ◌-ℤ◌
sub_int a b = wrap (a -ℤ b)

-- The values that an `int` holds.
abbrev pub IsInt : ℤ → Type 0
IsInt z = (pos_part z < 2 ^ 63) × (neg_part z ≤ 2 ^ 63)

pub residue_parts : (z : ℤ) → (residue z + neg_part z) % 2 ^ 64 ≡ pos_part z % 2 ^ 64
unfolding residue
residue_parts (pos n) = omega arith
residue_parts (negsuc n) = omega arith

pub residue-lt : (z : ℤ) → residue z < 2 ^ 64
unfolding residue
residue-lt (pos n) = omega arith
residue-lt (negsuc n) = omega arith

residue-signed : (m : ℕ) → m < 2 ^ 64 → residue (signed m) ≡ m
unfolding residue signed
residue-signed m h = ground arith

pub residue-wrap : (z : ℤ) → residue (wrap z) ≡ residue z
unfolding wrap
residue-wrap z = residue-signed (residue z) (residue-lt z)

pub wrap-eq : (a b : ℤ) → residue a ≡ residue b → wrap a ≡ wrap b
unfolding wrap
wrap-eq a b e = ap signed e

-- A value that fits is not changed.
pub wrap_id : (z : ℤ) → IsInt z → wrap z ≡ z
unfolding wrap residue signed
wrap_id (pos n) h = ground arith
wrap_id (negsuc n) h = ground arith

pub residue-add : (a b : ℤ) → residue (add_int a b) ≡ (residue a + residue b) % 2 ^ 64
residue-add a b =
    unfold add_int in
    residue-wrap (a +ℤ b)
    ∙ omega (
      arith,
      residue_parts a,
      residue_parts b,
      residue_parts (a +ℤ b),
      +ℤ_parts a b,
      residue-lt (a +ℤ b),
    )

pub residue-sub : (a b : ℤ) → (residue (sub_int a b) + residue b) % 2 ^ 64 ≡ residue a
residue-sub a b =
    unfold sub_int in
    ap (λ (r : ℕ). (r + residue b) % 2 ^ 64) (residue-wrap (a -ℤ b))
    ∙ omega (
      arith,
      residue_parts a,
      residue_parts b,
      residue_parts (a -ℤ b),
      -ℤ_parts a b,
      residue-lt a,
    )

pub sub_int-ext :
    (a b c d : ℤ) → residue (sub_int a b) ≡ residue (sub_int c d) → sub_int a b ≡ sub_int c d
unfolding sub_int wrap
sub_int-ext a b c d e = ap signed (sym (residue-wrap (a -ℤ b)) ∙ (e ∙ residue-wrap (c -ℤ d)))

pub add_int-ext :
    (a b c d : ℤ) → residue (add_int a b) ≡ residue (add_int c d) → add_int a b ≡ add_int c d
unfolding add_int wrap
add_int-ext a b c d e = ap signed (sym (residue-wrap (a +ℤ b)) ∙ (e ∙ residue-wrap (c +ℤ d)))

-- Subtracting r + (s - r) is subtracting s.
pub sub_int-add_int-sub_int : (l r s : ℤ) → sub_int l (add_int r (sub_int s r)) ≡ sub_int l s
sub_int-add_int-sub_int l r s = sub_int-ext l (add_int r (sub_int s r)) l s (
    omega (
      arith,
      residue-sub l (add_int r (sub_int s r)),
      residue-sub l s,
      residue-add r (sub_int s r),
      residue-sub s r,
      residue-lt (sub_int l s),
      residue-lt (sub_int l (add_int r (sub_int s r))),
      residue-lt r,
      residue-lt s,
      residue-lt (sub_int s r),
    ))

-- A sum and a difference are told by their bits.
pub signed-residue-add : (a b : ℤ) → signed (residue (add_int a b)) ≡ add_int a b
unfolding add_int wrap
signed-residue-add a b = ap signed (residue-wrap (a +ℤ b))

pub signed-residue-sub : (a b : ℤ) → signed (residue (sub_int a b)) ≡ sub_int a b
unfolding sub_int wrap
signed-residue-sub a b = ap signed (residue-wrap (a -ℤ b))

residue-sub_self : (n : ℤ) → residue (sub_int n n) ≡ 0
residue-sub_self n = omega (arith, residue-sub n n, residue-lt n, residue-lt (sub_int n n))

pub sub_int_self : (n : ℤ) → sub_int n n ≡ pos 0
unfolding signed
sub_int_self n = sym (signed-residue-sub n n) ∙ ap signed (residue-sub_self n)
