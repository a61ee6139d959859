-- ===== src/Base/Bytes.antt =====
-- Machine words as lists of bytes, in both byte orders. A byte is a number below 256, and a word
-- of `w` bytes is its bit pattern, a number below 256 ^ w.
use Prim.Native.Nat.{ℕ, zero, suc, ◌+◌, ◌-◌, ◌*◌, ◌/◌, ◌%◌, ◌^◌, ◌<◌}
use mathlib.Core.Path.{◌≡◌, refl, ap, ◌∙◌}
use mathlib.Core.List.{List, [], ◌∷◌, ◌++◌, reverse, reverse-reverse, reverse-cons}
use native.Mathlib.Omega.{arith}
use native.Mathlib.Nat.{pow-suc}
use pop_cpp.Base.Lists.{
  length, length-append, take, drop, take-append_length, drop-append_length, All,
}
use pop_cpp.Base.Tests.{ltb, if◌then◌else◌}
use mathlib.Core.Bool.{Bool}

abbrev pub IsByte : ℕ → Type 0
IsByte b = b < 256

-- The values of `w` bytes.
abbrev pub IsWord : ℕ → ℕ → Type 0
IsWord w x = x < 256 ^ w

unfoldable pub le_bytes : ℕ → ℕ → List ℕ
le_bytes zero x = []
le_bytes (suc w) x = (x % 256) ∷ le_bytes w (x / 256)

unfoldable pub from_le : List ℕ → ℕ
from_le [] = 0
from_le (b ∷ bs) = b + 256 * from_le bs

unfoldable pub be_bytes : ℕ → ℕ → List ℕ
unfolding le_bytes
be_bytes w x = reverse (le_bytes w x)

unfoldable pub from_be : List ℕ → ℕ
unfolding from_le
from_be bs = from_le (reverse bs)

pub length-le_bytes : (w x : ℕ) → length (le_bytes w x) ≡ w
unfolding le_bytes
length-le_bytes zero x = refl
length-le_bytes (suc w) x = ap suc (length-le_bytes w (x / 256))

pub from_le-le_bytes : (w x : ℕ) → IsWord w x → from_le (le_bytes w x) ≡ x
unfolding le_bytes from_le
from_le-le_bytes zero x h = omega arith
from_le-le_bytes (suc w) x h =
    let small : x / 256 < 256 ^ w = omega (arith, pow-suc 256 w) in
    omega (arith, from_le-le_bytes w (x / 256) small)

length-reverse : (xs : List ℕ) → length (reverse xs) ≡ length xs
length-reverse [] = refl
length-reverse (x ∷ xs) =
    omega
      (arith, ap length (reverse-cons x xs), length-append (reverse xs) (x ∷ []), length-reverse xs)

pub length-be_bytes : (w x : ℕ) → length (be_bytes w x) ≡ w
unfolding be_bytes
length-be_bytes w x = length-reverse (le_bytes w x) ∙ length-le_bytes w x

pub from_be-be_bytes : (w x : ℕ) → IsWord w x → from_be (be_bytes w x) ≡ x
unfolding be_bytes from_be
from_be-be_bytes w x h = rw reverse-reverse (from_le-le_bytes w x h)

-- An array of words of `w` bytes, lowest byte first, as `memcpy` copies it.
unfoldable pub le_array : ℕ → List ℕ → List ℕ
unfolding le_bytes
le_array w [] = []
le_array w (x ∷ xs) = le_bytes w x ++ le_array w xs

-- `n` words of `w` bytes read back from the front of a byte sequence.
unfoldable pub read_le_array : ℕ → ℕ → List ℕ → List ℕ
unfolding from_le
read_le_array w zero bs = []
read_le_array w (suc n) bs = from_le (take w bs) ∷ read_le_array w n (drop w bs)

pub length-le_array : (w : ℕ) (xs : List ℕ) → length (le_array w xs) ≡ length xs * w
unfolding le_array
length-le_array w [] = omega arith
length-le_array w (x ∷ xs) =
    omega (
      arith,
      length-append (le_bytes w x) (le_array w xs),
      length-le_bytes w x,
      length-le_array w xs,
    )

take-word : (w : ℕ) (xs ys : List ℕ) → length xs ≡ w → take w (xs ++ ys) ≡ xs
take-word w xs ys h = rw (← h) (take-append_length xs ys)

drop-word : (w : ℕ) (xs ys : List ℕ) → length xs ≡ w → drop w (xs ++ ys) ≡ ys
drop-word w xs ys h = rw (← h) (drop-append_length xs ys)

pub read_le_array-le_array :
    (w : ℕ) (xs : List ℕ) → All (IsWord w) xs → read_le_array w (length xs) (le_array w xs) ≡ xs
unfolding le_array read_le_array
read_le_array-le_array w [] h = refl
read_le_array-le_array w (x ∷ xs) h = rw (
  take-word w (le_bytes w x) (le_array w xs) (length-le_bytes w x),
  drop-word w (le_bytes w x) (le_array w xs) (length-le_bytes w x),
  from_le-le_bytes w x h.0,
  read_le_array-le_array w xs h.1,
)

-- The integer test `n > 0` on the bit pattern of an `int`.
abbrev pub is_positive : ℕ → Bool
is_positive n = if ltb 0 n then ltb n (2 ^ 31) else ltb 1 0

-- `int` arithmetic keeps the low 32 bits.
abbrev pub wrap32 : ℕ → ℕ
wrap32 n = n % 2 ^ 32

-- `static_cast<std::size_t>` of an `int`: a negative number becomes a huge one.
abbrev pub to_size : ℕ → ℕ
to_size n = if ltb n (2 ^ 31) then n else n + 2 ^ 64 - 2 ^ 32
