-- ===== src/Retry/Float.antt =====
-- `f64` as the retry policy uses it: the operations, and what the documentation says of them.
use Prim.Native.Nat.{min}
use x2ssh.Base.{ℕ, ◌-◌, ◌*◌, ◌^◌, ◌≤◌, ◌≡◌, refl, arith}
use x2ssh.Base.Int.{ℤ, pos, negsuc}

pub record F64 : Type 1 where
  pub Num : Type 0
  -- `n as f64`
  pub of_nat : ℕ → Num
  pub mul : Num → Num → Num
  pub powi : Num → ℤ → Num
  pub min : Num → Num → Num
  -- `x as u64`, which saturates
  pub to_u64 : Num → ℕ

-- Integers up to 2^53 are exact, and so are the products of two of them. The precision of `powi` is
-- not documented, and nothing is said of it. `min` ignores a NaN, so
-- it is at most a bound that is a number.
pub record IsFloat (F : F64) : Type 1 where
  pub Le : F.Num → F.Num → Type 0
  pub min-le_right : (x : F.Num) (m : ℕ) → Le (F.min x (F.of_nat m)) (F.of_nat m)
  pub to_u64_mono : (x y : F.Num) → Le x y → F.to_u64 x ≤ F.to_u64 y
  pub to_u64-of_nat : (m : ℕ) → m ≤ 2 ^ 53 → F.to_u64 (F.of_nat m) ≡ m
  pub min-of_nat :
      (a b : ℕ) → a ≤ 2 ^ 53 → b ≤ 2 ^ 53 → F.min (F.of_nat a) (F.of_nat b) ≡ F.of_nat (min a b)
  pub mul-of_nat : (a b : ℕ) → a * b ≤ 2 ^ 53 → F.mul (F.of_nat a) (F.of_nat b) ≡ F.of_nat (a * b)

abbrev pub saturate : ℕ → ℕ
saturate x = min x (2 ^ 64 - 1)

abbrev pub nat_powi : ℕ → ℤ → ℕ
nat_powi b (pos n) = b ^ n
nat_powi b (negsuc n) = 0

-- Numbers that are never rounded meet the laws.
abbrev pub exact : F64
exact = record {
  Num = ℕ;
  of_nat = λ n. n;
  mul = λ a b. a * b;
  powi = nat_powi;
  min = min;
  to_u64 = saturate;
}

exact_min_le : (x m : ℕ) → min x m ≤ m
exact_min_le x m = omega arith

saturate_mono : (x y : ℕ) → x ≤ y → saturate x ≤ saturate y
saturate_mono x y h = omega arith

saturate_small : (m : ℕ) → m ≤ 2 ^ 53 → saturate m ≡ m
saturate_small m h = omega arith

pub exact-IsFloat : IsFloat exact
exact-IsFloat = record {
  Le = λ a b. a ≤ b;
  min-le_right = exact_min_le;
  to_u64_mono = saturate_mono;
  to_u64-of_nat = saturate_small;
  min-of_nat = λ a b _ _. refl;
  mul-of_nat = λ a b _. refl;
}
