-- ===== src/Vfs/Protocol/Words.antt =====
-- Little-endian words, as `to_le_bytes` and `from_le_bytes` write and read them, and the parts of a
-- byte slice that the codec reads and overwrites.
use meta_hybrid_mount.Prelude.{
  ap, true, ℕ, ◌+◌, ◌*◌, ◌/◌, ◌%◌, ◌^◌, ◌<◌, ◌≡◌, List, [], ◌∷◌, ◌++◌, Option, none, some, arith,
  leb, if◌then◌else◌, length, take, drop, replicate, length-append, drop-append, take-append,
  drop-replicate, tests,
}

unfoldable pub u16_bytes : ℕ → List ℕ
u16_bytes n = (n % 256) ∷ (n / 256 % 256) ∷ []

unfoldable pub u32_bytes : ℕ → List ℕ
u32_bytes n = (n % 256) ∷ (n / 256 % 256) ∷ (n / 65536 % 256) ∷ (n / 16777216 % 256) ∷ []

unfoldable pub from_le_bytes : List ℕ → ℕ
from_le_bytes [] = 0
from_le_bytes (b ∷ r) = b + 256 * from_le_bytes r

pub from_le_bytes-u16 : (n : ℕ) → n < 2 ^ 16 → from_le_bytes (u16_bytes n) ≡ n
unfolding from_le_bytes u16_bytes
from_le_bytes-u16 n h = omega arith

pub from_le_bytes-u32 : (n : ℕ) → n < 2 ^ 32 → from_le_bytes (u32_bytes n) ≡ n
unfolding from_le_bytes u32_bytes
from_le_bytes-u32 n h = omega arith

-- `payload.get(offset..offset + n)`
unfoldable pub slice : List ℕ → ℕ → ℕ → Option (List ℕ)
slice payload offset n =
    if leb (offset + n) (length payload) then some (take n (drop offset payload)) else none

-- `page[offset..offset + src.len()].copy_from_slice(src)`, inside the page
unfoldable pub copy_at : List ℕ → ℕ → List ℕ → List ℕ
copy_at page offset src = take offset page ++ (src ++ drop (offset + length src) page)

-- A part of a slice is found by what stands before it.
pub slice-append :
    (pre x post : List ℕ) (offset n : ℕ)
    → offset ≡ length pre
    → n ≡ length x
    → slice (pre ++ (x ++ post)) offset n ≡ some x
unfolding slice
slice-append pre x post offset n ho hn =
    let fits : leb (offset + n) (length (pre ++ (x ++ post))) ≡ true =
      omega (tests, length-append pre (x ++ post), length-append x post) in
    rw fits
      (ap some (rw (drop-append pre (x ++ post) offset 0 (omega arith)) (take-append x post n hn)))

-- A write into the zeros behind what is written already.
pub copy_at-zeros :
    (pre src : List ℕ) (offset n k : ℕ)
    → offset ≡ length pre
    → n ≡ length src + k
    → copy_at (pre ++ replicate n 0) offset src ≡ pre ++ (src ++ replicate k 0)
unfolding copy_at
copy_at-zeros pre src offset n k ho hn = rw (
  take-append pre (replicate n 0) offset ho,
  drop-append pre (replicate n 0) (offset + length src) (length src) (omega arith),
  drop-replicate {A = ℕ} (length src) k n 0 (omega arith),
)
