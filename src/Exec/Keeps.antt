-- ===== src/Exec/Keeps.antt =====
-- Predicates on the state that a computation keeps, whether it fails or not.
use meta_hybrid_mount.Prelude.{Bool, true, false, List, [], ◌∷◌, if◌then◌else◌}
use meta_hybrid_mount.Errors.{Result, ok, err}
use meta_hybrid_mount.Exec.{Exec, continue, for_each}

abbrev pub Keeps : {S A : Type 0} → (S → Type 0) → Exec S A → Type 0
Keeps {S} P m = (s : S) → P s → P (m s).1

module _ {S A B : Type 0} (P : S → Type 0) where
  -- The rest of a sequence, from the result and the state of its first part.
  pub continue-Keeps :
      (r : Result A) (f : A → Exec S B) (s : S)
      → P s
      → ((a : A) → Keeps P (f a))
      → P (continue r f s).1
  continue-Keeps (ok a) f s p k = k a s p
  continue-Keeps (err e) f s p k = p

  pub for_each-Keeps :
      (action : A → Exec S B)
      → ((a : A) → Keeps P (action a))
      → (xs : List A) (s : S) → P s
      → P (for_each action xs s)
  unfolding for_each
  for_each-Keeps action k [] s p = p
  for_each-Keeps action k (x ∷ xs) s p = for_each-Keeps action k xs (action x s).1 (k x s p)

module _ {S A : Type 0} (P : S → Type 0) where
  pub if-Keeps :
      (b : Bool) (m n : Exec S A) (s : S) → P (m s).1 → P (n s).1 → P ((if b then m else n) s).1
  if-Keeps true m n s p q = p
  if-Keeps false m n s p q = q
