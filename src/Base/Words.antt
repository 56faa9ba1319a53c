-- ===== src/Base/Words.antt =====
-- Machine words as native numbers with their wrap-around, little-endian reads from memory, and
-- signed return codes.
use Prim.Native.Nat.{ℕ, suc, ◌+◌, ◌-◌, ◌*◌, ◌/◌, ◌%◌, ◌^◌}
use mathlib.Core.Bool.{Bool, true, false}
use mathlib.Core.List.{List, [], ◌∷◌}
use epoll_based_fault_diagno.Base.Lists.{get_or}

abbrev pub Bytes : Type 0
Bytes = List ℕ

-- uint32_t and uint64_t addition.
abbrev pub add32 : ℕ → ℕ → ℕ
add32 a b = (a + b) % 2 ^ 32

abbrev pub add64 : ℕ → ℕ → ℕ
add64 a b = (a + b) % 2 ^ 64

-- *(uint16_t*)(p + i) and *(uint32_t*)(p + i) on a little-endian machine.
abbrev pub u16_at : Bytes → ℕ → ℕ
u16_at p i = get_or p i 0 + 256 * get_or p (i + 1) 0

abbrev pub u32_at : Bytes → ℕ → ℕ
u32_at p i =
    get_or p i 0
    + 256 * get_or p (i + 1) 0
    + 65536 * get_or p (i + 2) 0
    + 16777216 * get_or p (i + 3) 0

abbrev pub le32 : ℕ → Bytes
le32 n = (n % 256) ∷ (n / 256 % 256) ∷ (n / 65536 % 256) ∷ (n / 16777216 % 256) ∷ []

-- A signed value: `negsuc n` is -(n + 1).
pub data ℤ : Type 0 where
  pos : ℕ → ℤ
  negsuc : ℕ → ℤ

abbrev pub is_neg : ℤ → Bool
is_neg (pos n) = false
is_neg (negsuc n) = true

-- `x > 0`
abbrev pub is_pos : ℤ → Bool
is_pos (pos (suc n)) = true
is_pos _ = false

-- a - b and a - b for uint32_t and uint64_t, with `b` below the modulus.
abbrev pub sub32 : ℕ → ℕ → ℕ
sub32 a b = (a + (2 ^ 32 - b)) % 2 ^ 32

abbrev pub sub64 : ℕ → ℕ → ℕ
sub64 a b = (a + (2 ^ 64 - b)) % 2 ^ 64
