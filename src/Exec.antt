-- ===== src/Exec.antt =====
-- Code that takes `&mut` and may fail: the state comes back beside an error too, since what was
-- done before a failure stays done.
pub mod Keeps
use meta_hybrid_mount.Prelude.{Bool, true, ◌≡◌, refl, List, [], ◌∷◌}
use meta_hybrid_mount.Errors.{Result, ok, err}

abbrev pub Exec : Type 0 → Type 0 → Type 0
Exec S A = S → Result A × S

module _ {S A : Type 0} where
  abbrev pub pure : A → Exec S A
  pure a s = (ok a, s)

  -- A pure computation that may fail, under `?`.
  abbrev pub lift : Result A → Exec S A
  lift r s = (r, s)

module _ {S A B : Type 0} where
  abbrev pub continue : Result A → (A → Exec S B) → Exec S B
  continue (ok a) f s = f a s
  continue (err e) f s = (err e, s)

  infixl 5 ◌>>=◌ ◌>>◌
  abbrev pub ◌>>=◌ : Exec S A → (A → Exec S B) → Exec S B
  ◌>>=◌ m f s = continue (m s).0 f (m s).1

  abbrev pub ◌>>◌ : Exec S A → Exec S B → Exec S B
  m >> n = m >>= λ _. n

-- The state of a closure that captures a flag beside what it works on.
module _ {S A : Type 0} where
  abbrev pub on_state : Exec S A → Exec (Bool × S) A
  on_state m (flag, s) = ((m s).0, (flag, (m s).1))

module _ {S : Type 0} where
  abbrev pub set_flag : Exec (Bool × S) (Unit {0})
  set_flag (flag, s) = (ok tt, (true, s))

-- `let _ = action(x);` for each `x`: the results are dropped.
module _ {S A B : Type 0} where
  unfoldable pub for_each : (A → Exec S B) → List A → S → S
  for_each action [] s = s
  for_each action (x ∷ xs) s = for_each action xs (action x s).1

module _ {S A B : Type 0} where
  -- Inversion of a successful sequence.
  pub continue-eq-ok :
      (r : Result A) (f : A → Exec S B) (s : S) {b : B} {s' : S}
      → continue r f s ≡ (ok b, s')
      → (a : A) × (r ≡ ok a) × (f a s ≡ (ok b, s'))
  continue-eq-ok (ok a) f s h = (a, refl, h)
  continue-eq-ok (err e) f s h = cc

  -- The same for a call and what follows it.
  pub then-eq-ok :
      (m : Exec S A) (n : Exec S B) (s : S) {b : B} {s' : S}
      → continue (m s).0 (λ _. n) (m s).1 ≡ (ok b, s')
      → (a : A) × ((m s).0 ≡ ok a) × (n (m s).1 ≡ (ok b, s'))
  then-eq-ok m n s h = continue-eq-ok (m s).0 (λ _. n) (m s).1 h

-- An outcome from its two parts, and back.
module _ {A B : Type 0} where
  pub pair_of_parts : {x : A × B} {a : A} {b : B} → x.0 ≡ a → x.1 ≡ b → x ≡ (a, b)
  pair_of_parts p q = λ i. (p i, q i)

  pub first_part : {x y : A × B} → x ≡ y → x.0 ≡ y.0
  first_part p = λ i. (p i).0

  pub second_part : {x y : A × B} → x ≡ y → x.1 ≡ y.1
  second_part p = λ i. (p i).1
