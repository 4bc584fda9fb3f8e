-- ===== src/Text/Decimal.antt =====
-- The decimal digits of a number, as `format!("{n}")` prints them.
use meta_hybrid_mount.Prelude.{
  ℕ, zero, suc, ◌+◌, ◌-◌, ◌*◌, ◌/◌, ◌%◌, ◌≤◌, ◌<◌, ◌∙◌, ltb→lt, ◌≡◌, refl, ap, true, false, [], ◌∷◌,
  ltb, arith, Bool-cases, inl, inr, All,
}
use meta_hybrid_mount.Text.{Text}

-- The digits before `rest`; a round divides by ten, so more rounds than the number are enough.
unfoldable pub digits : ℕ → ℕ → Text → Text
digits zero n rest = rest
digits (suc fuel) n rest = elim (ltb n 10) [
  | true ↦ (48 + n) ∷ rest
  | false ↦ digits fuel (n / 10) ((48 + n % 10) ∷ rest)
]

unfoldable pub decimal : ℕ → Text
unfolding digits
decimal n = digits (suc n) n []

-- The number that digits stand for, behind the number read so far.
unfoldable pub value_from : ℕ → Text → ℕ
value_from n [] = n
value_from n (c ∷ s) = value_from (n * 10 + (c - 48)) s

value_from-digits :
    (fuel n : ℕ) (rest : Text)
    → n ≤ fuel
    → value_from 0 (digits (suc fuel) n rest) ≡ value_from n rest
unfolding value_from digits
value_from-digits zero n rest h = let e : n ≡ 0 = omega arith in rw e refl
value_from-digits (suc fuel) n rest h = elim (Bool-cases (ltb n 10)) [
  | inl e ↦
      rw (e, digits)
        (let q : 0 * 10 + (48 + n - 48) ≡ n = omega arith in ap (λ k. value_from k rest) q)
  | inr e ↦
      rw (e, digits)
        (let ih = value_from-digits fuel (n / 10) ((48 + n % 10) ∷ rest) (omega arith) in
          let q : n / 10 * 10 + (48 + n % 10 - 48) ≡ n = omega arith in
          ih ∙ ap (λ k. value_from k rest) q)
]

-- Enough rounds: the digits of a number stand for it.
pub value_from-decimal : (n : ℕ) → value_from 0 (decimal n) ≡ n
unfolding value_from decimal
value_from-decimal n = value_from-digits n n [] (omega arith)

pub All-digits :
    (P : ℕ → Type 0)
    → ((n : ℕ) → n < 10 → P (48 + n))
    → (fuel n : ℕ) (rest : Text) → All P rest
    → All P (digits fuel n rest)
unfolding digits
All-digits P d zero n rest h = h
All-digits P d (suc fuel) n rest h = elim (Bool-cases (ltb n 10)) [
  | inl e ↦ rw (e, digits, All) (d n (ltb→lt n 10 e), h)
  | inr e ↦
      rw (e, digits, All)
        (All-digits P d fuel (n / 10) ((48 + n % 10) ∷ rest) (d (n % 10) (omega arith), h))
]
