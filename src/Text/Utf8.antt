-- ===== src/Text/Utf8.antt =====
-- UTF-8 decoding as `core::str` does it: `String::from_utf8_lossy` and `str::from_utf8`.
use meta_hybrid_mount.Prelude.{
  lt→ltb, ◌<◌, All, ℕ, zero, suc, ◌≡◌, ◌≤◌, refl, ◌⊎◌, inl, inr, Bool, true, false, ◌&&◌, List, [],
  ◌∷◌, ◌++◌, arith, leb, ltb, ◌==◌, if◌then◌else◌, length, take, drop, take-append-drop,
  length-drop,
}

-- Whether a byte lies in `lo..=hi`.
in_range : ℕ → ℕ → ℕ → Bool
in_range lo hi b = leb lo b && leb b hi

is_continuation : ℕ → Bool
unfolding in_range
is_continuation b = in_range 0x80 0xBF b

-- The second bytes that a three-byte sequence may have after its first byte.
second_of_three : ℕ → ℕ → Bool
unfolding in_range
second_of_three b c =
    if b == 0xE0
    then in_range 0xA0 0xBF c
    else if b == 0xED
    then in_range 0x80 0x9F c
    else in_range 0x80 0xBF c

second_of_four : ℕ → ℕ → Bool
unfolding in_range
second_of_four b c =
    if b == 0xF0
    then in_range 0x90 0xBF c
    else if b == 0xF4
    then in_range 0x80 0x8F c
    else in_range 0x80 0xBF c

-- One step of `Utf8Chunks`: whether a valid character stands at the head, and how many bytes it, or
-- the longest invalid prefix, takes.
pub data Chunk : Type 0 where
  valid : ℕ → Chunk
  invalid : ℕ → Chunk

last_of_four : List ℕ → Chunk
unfolding is_continuation
last_of_four [] = invalid 3
last_of_four (e ∷ r) = if is_continuation e then valid 4 else invalid 3

third_of_four : List ℕ → Chunk
unfolding is_continuation last_of_four
third_of_four [] = invalid 2
third_of_four (d ∷ r) = if is_continuation d then last_of_four r else invalid 2

rest_of_four : ℕ → List ℕ → Chunk
unfolding second_of_four third_of_four
rest_of_four b [] = invalid 1
rest_of_four b (c ∷ r) = if second_of_four b c then third_of_four r else invalid 1

last_of_three : List ℕ → Chunk
unfolding is_continuation
last_of_three [] = invalid 2
last_of_three (d ∷ r) = if is_continuation d then valid 3 else invalid 2

rest_of_three : ℕ → List ℕ → Chunk
unfolding second_of_three last_of_three
rest_of_three b [] = invalid 1
rest_of_three b (c ∷ r) = if second_of_three b c then last_of_three r else invalid 1

rest_of_two : List ℕ → Chunk
unfolding is_continuation
rest_of_two [] = invalid 1
rest_of_two (c ∷ r) = if is_continuation c then valid 2 else invalid 1

chunk : ℕ → List ℕ → Chunk
unfolding in_range rest_of_two rest_of_three rest_of_four
chunk b r =
    if ltb b 0x80
    then valid 1
    else if in_range 0xC2 0xDF b
    then rest_of_two r
    else if in_range 0xE0 0xEF b
    then rest_of_three b r
    else if in_range 0xF0 0xF4 b
    then rest_of_four b r
    else invalid 1

-- U+FFFD in UTF-8
abbrev replacement : List ℕ
replacement = 0xEF ∷ 0xBF ∷ 0xBD ∷ []

-- The text from the bytes, by rounds: each round consumes a byte at least, so the number of the
-- bytes is enough.
lossy_rounds : ℕ → List ℕ → List ℕ
lossy_rounds zero s = []
lossy_rounds (suc f) [] = []
lossy_rounds (suc f) (b ∷ r) = elim (chunk b r) [
  | valid n ↦ take n (b ∷ r) ++ lossy_rounds f (drop n (b ∷ r))
  | invalid n ↦ replacement ++ lossy_rounds f (drop n (b ∷ r))
]

-- `String::from_utf8_lossy`
unfoldable pub from_utf8_lossy : List ℕ → List ℕ
unfolding lossy_rounds chunk
from_utf8_lossy s = lossy_rounds (length s) s

is_utf8_rounds : ℕ → List ℕ → Bool
is_utf8_rounds zero s = true
is_utf8_rounds (suc f) [] = true
is_utf8_rounds (suc f) (b ∷ r) = elim (chunk b r) [
  | valid n ↦ is_utf8_rounds f (drop n (b ∷ r))
  | invalid n ↦ false
]

-- Whether `str::from_utf8` accepts the bytes.
unfoldable pub is_utf8 : List ℕ → Bool
unfolding is_utf8_rounds chunk
is_utf8 s = is_utf8_rounds (length s) s

chunk_takes : (b : ℕ) (r : List ℕ) (n : ℕ) → chunk b r ≡ valid n → 1 ≤ n
unfolding chunk
chunk_takes b r n h = ground arith

Chunk-cases : (c : Chunk) → ((n : ℕ) × (c ≡ valid n)) ⊎ ((n : ℕ) × (c ≡ invalid n))
Chunk-cases (valid n) = inl (n, refl)
Chunk-cases (invalid n) = inr (n, refl)

lossy_rounds_valid :
    (f : ℕ) (s : List ℕ) → length s ≤ f → is_utf8_rounds f s ≡ true → lossy_rounds f s ≡ s
unfolding lossy_rounds is_utf8_rounds
lossy_rounds_valid zero [] l h = refl
lossy_rounds_valid zero (b ∷ r) l h = absurd (omega arith)
lossy_rounds_valid (suc f) [] l h = refl
lossy_rounds_valid (suc f) (b ∷ r) l h = elim (Chunk-cases (chunk b r)) [
  | inl (n, e) ↦
      rw (e, lossy_rounds)
        (rw
          (lossy_rounds_valid f (drop n (b ∷ r))
            (omega (arith, chunk_takes b r n e, length-drop n (b ∷ r)))
            (rw (e, is_utf8_rounds) at h))
          (take-append-drop n (b ∷ r)))
  | inr (n, e) ↦ cc (rw (e, is_utf8_rounds) at h)
]

-- Bytes that are UTF-8 decode to themselves.
pub from_utf8_lossy_valid : (s : List ℕ) → is_utf8 s ≡ true → from_utf8_lossy s ≡ s
unfolding from_utf8_lossy is_utf8
from_utf8_lossy_valid s h = lossy_rounds_valid (length s) s (omega arith) h

lossy_sample :
    from_utf8_lossy (0x61 ∷ 0xC3 ∷ 0xA9 ∷ 0xE2 ∷ 0x82 ∷ 0x62 ∷ 0xFF ∷ [])
    ≡ 0x61 ∷ 0xC3 ∷ 0xA9 ∷ 0xEF ∷ 0xBF ∷ 0xBD ∷ 0x62 ∷ 0xEF ∷ 0xBF ∷ 0xBD ∷ []
unfolding from_utf8_lossy
lossy_sample = refl

is_utf8_rounds_ascii : (f : ℕ) (s : List ℕ) → All (λ b. b < 0x80) s → is_utf8_rounds f s ≡ true
unfolding is_utf8_rounds chunk
is_utf8_rounds_ascii zero s h = refl
is_utf8_rounds_ascii (suc f) [] h = refl
is_utf8_rounds_ascii (suc f) (b ∷ r) (h, hs) =
    rw (is_utf8_rounds, chunk, lt→ltb b 0x80 h) (is_utf8_rounds_ascii f r hs)

-- ASCII is UTF-8.
pub is_utf8_ascii : (s : List ℕ) → All (λ b. b < 0x80) s → is_utf8 s ≡ true
unfolding is_utf8
is_utf8_ascii s h = is_utf8_rounds_ascii (length s) s h
