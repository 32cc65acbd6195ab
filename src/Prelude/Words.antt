-- ===== src/Prelude/Words.antt =====
-- Machine integers: `u64`, `u32` and `usize` arithmetic that wraps around, as in a release build.
use Prim.Native.Nat.{ℕ, zero, suc, ◌+◌, ◌-◌, ◌*◌, ◌/◌, ◌%◌, ◌<◌}
use hotstuff_dag.Prelude.Lists.{length}
use mathlib.Core.List.{List, [], ◌∷◌}
use mathlib.Core.Path.{◌≡◌, ap, ◌∙◌}
use native.Mathlib.Omega.{arith}

abbrev pub u64_mod : ℕ
u64_mod = 18446744073709551616

abbrev pub u32_mod : ℕ
u32_mod = 4294967296

abbrev pub add64 : ℕ → ℕ → ℕ
add64 a b = (a + b) % u64_mod

abbrev pub sub64 : ℕ → ℕ → ℕ
sub64 a b = (a + u64_mod - b) % u64_mod

abbrev pub add32 : ℕ → ℕ → ℕ
add32 a b = (a + b) % u32_mod

abbrev pub sub32 : ℕ → ℕ → ℕ
sub32 a b = (a + u32_mod - b) % u32_mod

abbrev pub mul32 : ℕ → ℕ → ℕ
mul32 a b = (a * b) % u32_mod

-- `to_le_bytes` of an integer of `n` bytes.
pub le_bytes : ℕ → ℕ → List ℕ
le_bytes zero x = []
le_bytes (suc n) x = (x % 256) ∷ le_bytes n (x / 256)

-- The bytes, first to last, of a byte array that is written as a big-endian number.
be_bytes_onto : ℕ → ℕ → List ℕ → List ℕ
be_bytes_onto zero x rest = rest
be_bytes_onto (suc n) x rest = be_bytes_onto n (x / 256) ((x % 256) ∷ rest)

pub be_bytes : ℕ → ℕ → List ℕ
unfolding be_bytes_onto
be_bytes n x = be_bytes_onto n x []

-- `usize::from_be_bytes`.
unfoldable pub from_be_bytes_onto : ℕ → List ℕ → ℕ
from_be_bytes_onto acc [] = acc
from_be_bytes_onto acc (b ∷ bs) = from_be_bytes_onto (256 * acc + b) bs

unfoldable pub from_be_bytes : List ℕ → ℕ
unfolding from_be_bytes_onto
from_be_bytes bs = from_be_bytes_onto 0 bs

-- One above the largest number of `n` bytes.
abbrev pub byte_limit : ℕ → ℕ
byte_limit zero = 1
byte_limit (suc n) = 256 * byte_limit n

length-be_bytes_onto : (n x : ℕ) (rest : List ℕ) → length (be_bytes_onto n x rest) ≡ n + length rest
unfolding be_bytes_onto
length-be_bytes_onto zero x rest = omega arith
length-be_bytes_onto (suc n) x rest =
    omega (arith, length-be_bytes_onto n (x / 256) ((x % 256) ∷ rest))

pub length-be_bytes : (n x : ℕ) → length (be_bytes n x) ≡ n
unfolding be_bytes
length-be_bytes n x = omega (arith, length-be_bytes_onto n x [])

from-be_bytes_onto :
    (n x : ℕ) (rest : List ℕ)
    → x < byte_limit n
    → from_be_bytes_onto 0 (be_bytes_onto n x rest) ≡ from_be_bytes_onto x rest
unfolding be_bytes_onto from_be_bytes_onto
from-be_bytes_onto zero x rest h =
    ap {A = ℕ} {B = ℕ} (λ y. from_be_bytes_onto y rest) {x = 0} {y = x} (omega (arith, h))
from-be_bytes_onto (suc n) x rest h =
    from-be_bytes_onto n (x / 256) ((x % 256) ∷ rest) (omega (arith, h))
    ∙ ap {A = ℕ} {B = ℕ} (λ y. from_be_bytes_onto y rest) {x = 256 * (x / 256) + x % 256} {y = x}
        (omega arith)

pub from_be_bytes-be_bytes : (n x : ℕ) → x < byte_limit n → from_be_bytes (be_bytes n x) ≡ x
unfolding be_bytes from_be_bytes from_be_bytes_onto
from_be_bytes-be_bytes n x h = from-be_bytes_onto n x [] h
