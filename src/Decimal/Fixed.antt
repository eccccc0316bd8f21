-- ===== src/Decimal/Fixed.antt =====
-- A concrete arithmetic that meets the laws: whole numbers of ten-thousandths, each product and
-- quotient rounded away from zero. The witnesses run the program on it.
use alpha_council.Base.{
  ℕ, String, zero, suc, ◌+◌, ◌-◌, ◌*◌, ◌/◌, ◌^◌, ◌≤◌, ◌<◌, ◌≡◌, refl, true, false, ◌⊎◌, arith,
}
use alpha_council.Base.Int.{ℤ, pos, negsuc, pos_part, neg_part, sub_ℕ, leb_ℤ}
use alpha_council.Decimal.{Decimal}
use alpha_council.Decimal.Laws.{IsDecimal}

-- a / c for c > 0, rounded up
abbrev pub div_up : ℕ → ℕ → ℕ
div_up a c = (a + (c - 1)) / c

abbrev pub times : ℤ → ℤ → ℤ
times (pos a) (pos b) = pos (div_up (a * b) 10_000)
times (pos a) (negsuc b) = sub_ℕ 0 (div_up (a * suc b) 10_000)
times (negsuc a) (pos b) = sub_ℕ 0 (div_up (suc a * b) 10_000)
times (negsuc a) (negsuc b) = pos (div_up (suc a * suc b) 10_000)

abbrev pub over : ℤ → ℤ → ℤ
over (pos a) (pos b) = pos (div_up (a * 10_000) b)
over (pos a) (negsuc b) = sub_ℕ 0 (div_up (a * 10_000) (suc b))
over (negsuc a) (pos b) = sub_ℕ 0 (div_up (suc a * 10_000) b)
over (negsuc a) (negsuc b) = pos (div_up (suc a * 10_000) (suc b))

abbrev pub truncate : ℤ → ℤ
truncate (pos a) = pos (a / 10_000)
truncate (negsuc a) = sub_ℕ 0 (suc a / 10_000)

-- to `k` decimals, of at most four
abbrev pub quantize : ℕ → ℤ → ℤ
quantize k (pos a) = let unit = 10 ^ (4 - k) in pos ((2 * a + unit) / (2 * unit) * unit)
quantize k (negsuc a) = let unit = 10 ^ (4 - k) in sub_ℕ 0 ((2 * suc a + unit) / (2 * unit) * unit)

-- A text that shows the sign alone; no law speaks of texts.
abbrev pub text : ℤ → String
text (pos zero) = "0"
text (pos (suc n)) = "1"
text (negsuc n) = "-1"

instance abbrev pub fixed : Decimal ℤ
fixed = record {
  constant = pos;
  le = leb_ℤ;
  plus = λ a b. sub_ℕ (pos_part a + pos_part b) (neg_part a + neg_part b);
  minus = λ a b. sub_ℕ (pos_part a + neg_part b) (neg_part a + pos_part b);
  times = times;
  over = over;
  truncate = truncate;
  quantize = quantize;
  text = text;
}

div_up_mono : (a b c : ℕ) → a ≤ b → div_up a c ≤ div_up b c
div_up_mono a b c h = grind arith

div_up-le : (a b c : ℕ) → 0 < c → a ≤ b * c → div_up a c ≤ b
div_up-le a b c p h = grind arith

div_up-pos : (a c : ℕ) → 0 < a → 0 < c → 0 < div_up a c
div_up-pos a c h p = grind arith

mul_mono_ℕ : (a b c : ℕ) → a ≤ b → c * a ≤ c * b
mul_mono_ℕ a b c h = grind arith

mul_pos_ℕ : (a b : ℕ) → 0 < a → 0 < b → 0 < a * b
mul_pos_ℕ a b h k = grind arith

le_total_ℤ : (a b : ℤ) → (leb_ℤ a b ≡ true) ⊎ (leb_ℤ b a ≡ true)
le_total_ℤ a b = ground arith

-- The laws of `times`, by the signs of its arguments.
mul_nonneg :
    (a b : ℤ) → leb_ℤ (pos 0) a ≡ true → leb_ℤ (pos 0) b ≡ true → leb_ℤ (pos 0) (times a b) ≡ true
mul_nonneg (pos a) (pos b) h k = ground arith
mul_nonneg (pos a) (negsuc b) h k = ground arith
mul_nonneg (negsuc a) b h k = ground arith

mul_mono :
    (a b c : ℤ) → leb_ℤ a b ≡ true → leb_ℤ (pos 0) c ≡ true → leb_ℤ (times c a) (times c b) ≡ true
mul_mono (pos a) (pos b) (pos c) h k =
    ground (arith, div_up_mono (c * a) (c * b) 10_000, mul_mono_ℕ a b c)
mul_mono (pos a) (negsuc b) (pos c) h k = ground arith
mul_mono (negsuc a) (pos b) (pos c) h k = ground arith
mul_mono (negsuc a) (negsuc b) (pos c) h k =
    ground (arith, div_up_mono (c * suc b) (c * suc a) 10_000, mul_mono_ℕ (suc b) (suc a) c)
mul_mono a b (negsuc c) h k = ground arith

mul_le :
    (a b : ℤ) → leb_ℤ (pos 0) a ≡ true → leb_ℤ b (pos 10_000) ≡ true → leb_ℤ (times a b) a ≡ true
mul_le (pos a) (pos b) h k = ground (arith, div_up-le (a * b) a 10_000, mul_mono_ℕ b 10_000 a)
mul_le (pos a) (negsuc b) h k = ground arith
mul_le (negsuc a) b h k = ground arith

div_up_cancel : (a : ℕ) → div_up (a * 10_000) 10_000 ≡ a
div_up_cancel a = grind arith

mul_one : (a : ℤ) → times a (pos 10_000) ≡ a
mul_one (pos a) = rw (div_up_cancel a) refl
mul_one (negsuc a) = rw (div_up_cancel (suc a)) (ground arith)

mul_nonpos :
    (a b : ℤ) → leb_ℤ a (pos 0) ≡ true → leb_ℤ (pos 0) b ≡ true → leb_ℤ (times a b) (pos 0) ≡ true
mul_nonpos (pos a) (pos b) h k = ground (arith, mul_mono_ℕ a 0 b, div_up-le (a * b) 0 10_000)
mul_nonpos (negsuc a) (pos b) h k = ground arith
mul_nonpos a (negsuc b) h k = ground arith

mul_pos :
    (a b : ℤ)
    → leb_ℤ a (pos 0) ≡ false
    → leb_ℤ b (pos 0) ≡ false
    → leb_ℤ (times a b) (pos 0) ≡ false
mul_pos (pos a) (pos b) h k = ground (arith, mul_pos_ℕ a b, div_up-pos (a * b) 10_000)
mul_pos (pos a) (negsuc b) h k = ground arith
mul_pos (negsuc a) b h k = ground arith

div_pos :
    (a b : ℤ) → leb_ℤ a (pos 0) ≡ false → leb_ℤ b (pos 0) ≡ false → leb_ℤ (over a b) (pos 0) ≡ false
div_pos (pos a) (pos b) h k = ground (arith, div_up-pos (a * 10_000) b)
div_pos (pos a) (negsuc b) h k = ground arith
div_pos (negsuc a) b h k = ground arith

zero_div : (a : ℤ) → leb_ℤ a (pos 0) ≡ false → leb_ℤ (over (pos 0) a) (pos 0) ≡ true
zero_div (pos a) h = ground (arith, div_up-le 0 0 a)
zero_div (negsuc a) h = ground arith

div_self : (a : ℤ) → leb_ℤ a (pos 0) ≡ false → leb_ℤ (over a a) (pos 10_000) ≡ true
div_self (pos a) h = ground (arith, div_up-le (a * 10_000) 10_000 a)
div_self (negsuc a) h = ground arith

div_mono :
    (a b c : ℤ) → leb_ℤ a b ≡ true → leb_ℤ c (pos 0) ≡ false → leb_ℤ (over a c) (over b c) ≡ true
div_mono (pos a) (pos b) (pos c) h k = ground (arith, div_up_mono (a * 10_000) (b * 10_000) c)
div_mono (pos a) (negsuc b) (pos c) h k = ground arith
div_mono (negsuc a) (pos b) (pos c) h k = ground arith
div_mono (negsuc a) (negsuc b) (pos c) h k =
    ground (arith, div_up_mono (suc b * 10_000) (suc a * 10_000) c)
div_mono a b (negsuc c) h k = ground arith

div_nonneg :
    (a c : ℤ) → leb_ℤ (pos 0) a ≡ true → leb_ℤ c (pos 0) ≡ false → leb_ℤ (pos 0) (over a c) ≡ true
div_nonneg (pos a) (pos c) h k = ground arith
div_nonneg (pos a) (negsuc c) h k = ground arith
div_nonneg (negsuc a) c h k = ground arith

int_le : (a : ℤ) → leb_ℤ (pos 0) a ≡ true → leb_ℤ (pos (pos_part (truncate a) * 10_000)) a ≡ true
int_le (pos a) h = ground arith
int_le (negsuc a) h = ground arith

pub fixed-IsDecimal : IsDecimal ℤ
fixed-IsDecimal = record {
  constant_le = λ m n. ground arith;
  le_trans = λ a b c h k. ground arith;
  le_total = le_total_ℤ;
  add_nonneg = λ a b h k. ground arith;
  add_le = λ a b m n h k. ground arith;
  sub_le = λ a b h. ground arith;
  sub_self = λ a. ground arith;
  sub_nonneg = λ a b h. ground arith;
  mul_nonneg = mul_nonneg;
  mul_mono = mul_mono;
  mul_le = mul_le;
  mul_one = mul_one;
  mul_nonpos = mul_nonpos;
  mul_pos = mul_pos;
  div_pos = div_pos;
  zero_div = zero_div;
  div_self = div_self;
  div_mono = div_mono;
  div_nonneg = div_nonneg;
  int_le = int_le;
}
