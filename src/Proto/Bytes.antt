-- ===== src/Proto/Bytes.antt =====
-- `u32::to_be_bytes` and `u32::from_be_bytes`. A byte is a number below 256.
use x2ssh.Base.{ℕ, ◌+◌, ◌*◌, ◌/◌, ◌%◌, ◌^◌, ◌<◌, ◌≡◌, List, [], ◌∷◌, arith, All, length}

abbrev pub IsByte : ℕ → Type 0
IsByte b = b < 256

-- `x as u32` of a usize keeps the low 32 bits.
abbrev pub as_u32 : ℕ → ℕ
as_u32 x = x % 2 ^ 32

unfoldable pub to_be_bytes : ℕ → List ℕ
to_be_bytes x = (x / 2 ^ 24 % 256) ∷ (x / 2 ^ 16 % 256) ∷ (x / 2 ^ 8 % 256) ∷ (x % 256) ∷ []

be_fold : ℕ → List ℕ → ℕ
be_fold acc [] = acc
be_fold acc (b ∷ bs) = be_fold (acc * 256 + b) bs

unfoldable pub from_be_bytes : List ℕ → ℕ
unfolding be_fold
from_be_bytes bs = be_fold 0 bs

pub from_be_bytes-to_be_bytes : (x : ℕ) → x < 2 ^ 32 → from_be_bytes (to_be_bytes x) ≡ x
unfolding from_be_bytes to_be_bytes
from_be_bytes-to_be_bytes x h = omega arith

pub length-to_be_bytes : (x : ℕ) → length (to_be_bytes x) ≡ 4
unfolding to_be_bytes
length-to_be_bytes x = omega arith

pub to_be_bytes-IsByte : (x : ℕ) → All IsByte (to_be_bytes x)
unfolding to_be_bytes
to_be_bytes-IsByte x = omega arith
