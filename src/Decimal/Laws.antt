-- ===== src/Decimal/Laws.antt =====
-- What the code relies on of `decimal.Decimal`: the order of finite decimals is total, and each
-- operation is the exact result rounded to the context's precision, which is monotone and leaves
-- zero, one and the operands themselves alone (the operands have no more digits than that).
use alpha_council.Base.{ℕ, ◌+◌, ◌≡◌, ◌⊎◌, true, false, leb as leb_ℕ}
use alpha_council.Base.Int.{pos_part}
use alpha_council.Decimal.{Decimal, leb, add, sub, mul, div, int, nought, one, whole}

pub record IsDecimal (D : Type 0) ⦃d : Decimal D⦄ : Type 0 where
  pub constant_le : (m n : ℕ) → d.le (d.constant m) (d.constant n) ≡ leb_ℕ m n
  pub le_trans : (a b c : D) → leb a b ≡ true → leb b c ≡ true → leb a c ≡ true
  pub le_total : (a b : D) → (leb a b ≡ true) ⊎ (leb b a ≡ true)
  pub add_nonneg :
      (a b : D) → leb nought a ≡ true → leb nought b ≡ true → leb nought (add a b) ≡ true
  pub add_le :
      (a b : D) (m n : ℕ)
      → leb a (d.constant m) ≡ true
      → leb b (d.constant n) ≡ true
      → leb (add a b) (d.constant (m + n)) ≡ true
  pub sub_le : (a b : D) → leb nought b ≡ true → leb (sub a b) a ≡ true
  pub sub_self : (a : D) → leb (sub a a) nought ≡ true
  pub sub_nonneg : (a b : D) → leb b a ≡ true → leb nought (sub a b) ≡ true
  pub mul_nonneg :
      (a b : D) → leb nought a ≡ true → leb nought b ≡ true → leb nought (mul a b) ≡ true
  pub mul_mono : (a b c : D) → leb a b ≡ true → leb nought c ≡ true → leb (mul c a) (mul c b) ≡ true
  pub mul_le : (a b : D) → leb nought a ≡ true → leb b one ≡ true → leb (mul a b) a ≡ true
  pub mul_one : (a : D) → mul a one ≡ a
  pub mul_nonpos :
      (a b : D) → leb a nought ≡ true → leb nought b ≡ true → leb (mul a b) nought ≡ true
  pub mul_pos :
      (a b : D) → leb a nought ≡ false → leb b nought ≡ false → leb (mul a b) nought ≡ false
  pub div_pos :
      (a b : D) → leb a nought ≡ false → leb b nought ≡ false → leb (div a b) nought ≡ false
  pub zero_div : (a : D) → leb a nought ≡ false → leb (div nought a) nought ≡ true
  pub div_self : (a : D) → leb a nought ≡ false → leb (div a a) one ≡ true
  pub div_mono :
      (a b c : D) → leb a b ≡ true → leb c nought ≡ false → leb (div a c) (div b c) ≡ true
  pub div_nonneg :
      (a c : D) → leb nought a ≡ true → leb c nought ≡ false → leb nought (div a c) ≡ true
  pub int_le : (a : D) → leb nought a ≡ true → leb (whole (pos_part (int a))) a ≡ true
