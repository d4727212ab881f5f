-- ===== src/Adjust/Updated.antt =====
-- The new local value of a limited metric after a flush.
use scale_authorizer.Prelude.{
  ℤ, pos, add_int, sub_int, residue, signed, signed-residue-add, signed-residue-sub, residue-add,
  residue-sub, residue-lt, true, false, ◌≡◌, refl, arith, ◌∙◌, sym, ap,
}
use scale_authorizer.Adjust.{updated_value}

residue_zero : residue (pos 0) ≡ 0
unfolding residue
residue_zero = refl

-- Where the report went through, the new value is 3scale's plus the hits since the snapshot, modulo
-- 2 ^ 64 as the sums of the source are, whatever the delta.
pub updated_value_reported :
    (local remote snapped delta : ℤ)
    → updated_value local remote snapped delta false ≡ add_int remote (sub_int local snapped)
unfolding updated_value
updated_value_reported l r s d =
    sym (signed-residue-sub (sub_int (add_int l r) (sub_int s d)) d)
    ∙ (ap signed (
          omega (
            arith,
            residue-sub (sub_int (add_int l r) (sub_int s d)) d,
            residue-sub (add_int l r) (sub_int s d),
            residue-add l r,
            residue-sub s d,
            residue-add r (sub_int l s),
            residue-sub l s,
            residue-lt (sub_int (sub_int (add_int l r) (sub_int s d)) d),
            residue-lt (add_int r (sub_int l s)),
            residue-lt (sub_int (add_int l r) (sub_int s d)),
            residue-lt (sub_int s d),
            residue-lt (sub_int l s),
            residue-lt d,
            residue-lt s,
            residue-lt l,
            residue-lt r,
          ))
        ∙ signed-residue-add r (sub_int l s))

-- Where the report failed, the delta is added once more, to be reported in the next flush.
pub updated_value_failed :
    (local remote snapped delta : ℤ)
    → updated_value local remote snapped delta true
      ≡ add_int (add_int remote (sub_int local snapped)) delta
unfolding updated_value
updated_value_failed l r s d =
    sym (signed-residue-sub (sub_int (add_int l r) (sub_int s d)) (pos 0))
    ∙ (ap signed (
          omega (
            arith,
            residue_zero,
            residue-sub (sub_int (add_int l r) (sub_int s d)) (pos 0),
            residue-sub (add_int l r) (sub_int s d),
            residue-add l r,
            residue-sub s d,
            residue-add (add_int r (sub_int l s)) d,
            residue-add r (sub_int l s),
            residue-sub l s,
            residue-lt (sub_int (sub_int (add_int l r) (sub_int s d)) (pos 0)),
            residue-lt (sub_int (add_int l r) (sub_int s d)),
            residue-lt (sub_int s d),
            residue-lt (sub_int l s),
            residue-lt d,
            residue-lt s,
            residue-lt l,
            residue-lt r,
          ))
        ∙ signed-residue-add (add_int r (sub_int l s)) d)
