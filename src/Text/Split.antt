-- ===== src/Text/Split.antt =====
-- `split('/')`, joining with `/`, and `Path::join`, on the bytes of a path.
use meta_hybrid_mount.Prelude.{
  sym, ℕ, ◌≡◌, refl, ap, Bool, false, List, [], ◌∷◌, ◌++◌, ◌==◌, ==_iff, if◌then◌else◌, Bool-cases,
  inl, inr,
}

abbrev byte_slash : ℕ
byte_slash = b'/'

-- One more byte in front of the first component.
abbrev prepend : ℕ → List (List ℕ) → List (List ℕ)
prepend c [] = (c ∷ []) ∷ []
prepend c (w ∷ ws) = (c ∷ w) ∷ ws

unfoldable pub split_slash : List ℕ → List (List ℕ)
split_slash [] = [] ∷ []
split_slash (c ∷ s) =
    let rest = split_slash s in if c == byte_slash then [] ∷ rest else prepend c rest

unfoldable pub join_slash : List (List ℕ) → List ℕ
join_slash [] = []
join_slash (w ∷ []) = w
join_slash (w ∷ v ∷ ws) = w ++ (byte_slash ∷ join_slash (v ∷ ws))

split_slash_cons : (s : List ℕ) → (w : List ℕ) × (ws : List (List ℕ)) × (split_slash s ≡ w ∷ ws)
unfolding split_slash
split_slash_cons [] = ([], [], refl)
split_slash_cons (c ∷ s) =
    let (w, ws, e) = split_slash_cons s in
    elim (Bool-cases (c == byte_slash)) [
      | inl h ↦ ([], split_slash s, rw h refl)
      | inr h ↦ (c ∷ w, ws, rw (h, e) refl)
    ]

-- Splitting and joining again gives the path back.
pub join_slash-split_slash : (s : List ℕ) → join_slash (split_slash s) ≡ s
unfolding split_slash join_slash
join_slash-split_slash [] = refl
join_slash-split_slash (c ∷ s) =
    let (w, ws, e) = split_slash_cons s in
    let ih : join_slash (w ∷ ws) ≡ s = rw (← e) (join_slash-split_slash s) in
    elim (Bool-cases (c == byte_slash)) [
      | inl h ↦ rw (h, e, join_slash) (rw ih (ap (λ x. x ∷ s) (sym ((==_iff c byte_slash).0 h))))
      | inr h ↦ rw (h, e) (join_prepend c w ws s ih)
    ]
  where
    join_prepend :
        (x : ℕ) (v : List ℕ) (vs : List (List ℕ)) (t : List ℕ)
        → join_slash (v ∷ vs) ≡ t
        → join_slash ((x ∷ v) ∷ vs) ≡ x ∷ t
    join_prepend x v [] t h = ap (λ r. x ∷ r) h
    join_prepend x v (u ∷ us) t h = ap (λ r. x ∷ r) h

-- The last byte is `/`.
unfoldable pub ends_with_slash : List ℕ → Bool
ends_with_slash [] = false
ends_with_slash (c ∷ []) = c == byte_slash
ends_with_slash (c ∷ d ∷ s) = ends_with_slash (d ∷ s)

-- `PathBuf::join`: an absolute path replaces the one before it.
unfoldable pub path_join : List ℕ → List ℕ → List ℕ
path_join [] s = s
path_join (r ∷ root) [] =
    if ends_with_slash (r ∷ root) then r ∷ root else (r ∷ root) ++ (byte_slash ∷ [])
path_join (r ∷ root) (c ∷ s) =
    if c == byte_slash
    then c ∷ s
    else if ends_with_slash (r ∷ root)
    then (r ∷ root) ++ (c ∷ s)
    else (r ∷ root) ++ (byte_slash ∷ c ∷ s)
