-- ===== src/Decimal/Lemmas.antt =====
-- Consequences of the laws that the components share.
use mathlib.Core.Logic.{inl, inr}
use alpha_council.Base.{◌≡◌, true, false, arith}
use alpha_council.Decimal.{Decimal, leb, max, min}
use alpha_council.Decimal.Laws.{IsDecimal}

module _ {D : Type 0} ⦃d : Decimal D⦄ (laws : IsDecimal D) where
  pub le_refl : (a : D) → leb a a ≡ true
  le_refl a = elim (laws.le_total a a) [ inl h ↦ h | inr h ↦ h ]

  -- What is not below is above.
  pub le_of_not_le : (a b : D) → leb a b ≡ false → leb b a ≡ true
  le_of_not_le a b h = ground (arith, laws.le_total a b)

  pub max_left : (a b : D) → leb a (max a b) ≡ true
  max_left a b = ground (arith, laws.le_total a b, le_refl a)

  pub max_right : (a b : D) → leb b (max a b) ≡ true
  max_right a b = ground (arith, laws.le_total a b, le_refl b)

  pub max_le : (a b c : D) → leb a c ≡ true → leb b c ≡ true → leb (max a b) c ≡ true
  max_le a b c h k = ground arith

  pub min_left : (a b : D) → leb (min a b) a ≡ true
  min_left a b = ground (arith, laws.le_total a b, le_refl a)

  pub min_right : (a b : D) → leb (min a b) b ≡ true
  min_right a b = ground (arith, laws.le_total a b, le_refl b)

  pub le_min : (a b c : D) → leb c a ≡ true → leb c b ≡ true → leb c (min a b) ≡ true
  le_min a b c h k = ground arith

  -- From a < b and b <= c.
  pub lt_of_lt_of_le : (a b c : D) → leb b a ≡ false → leb b c ≡ true → leb c a ≡ false
  lt_of_lt_of_le a b c h k = ground (arith, laws.le_trans b c a)
