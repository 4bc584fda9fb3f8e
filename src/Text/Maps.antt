-- ===== src/Text/Maps.antt =====
-- `BTreeMap<String, V>` as an association list in the order of its keys.
use meta_hybrid_mount.Prelude.{
  ◌≡◌, ◌∙◌, true, Option, none, some, List, [], ◌∷◌, if◌then◌else◌, Bool-cases, inl, inr, All,
}
use meta_hybrid_mount.Text.{Text, text_eq, text_eq_sym, text_lt}
use meta_hybrid_mount.Text.Order.{text_lt_trans, text_lt_linear}

module _ {V : Type 0} where
  -- `entry(key)`, with the change of the value that is there or is put there.
  unfoldable pub update : Text → (Option V → V) → List (Text × V) → List (Text × V)
  update key change [] = (key, change none) ∷ []
  update key change ((k, v) ∷ m) =
      let behind = update key change m in
      if text_eq k key
      then (k, change (some v)) ∷ m
      else if text_lt key k
      then (key, change none) ∷ (k, v) ∷ m
      else (k, v) ∷ behind

  abbrev pub put : Text → V → List (Text × V) → List (Text × V)
  put key value = update key (λ _. value)

  -- Strictly ascending keys.
  abbrev pub HasOrderedKeys : List (Text × V) → Type 0
  HasOrderedKeys [] = Unit
  HasOrderedKeys ((k, v) ∷ m) = All (λ (e : Text × V). text_lt k e.0 ≡ true) m × HasOrderedKeys m

  above-All :
      (j k : Text) (m : List (Text × V))
      → text_lt j k ≡ true
      → All (λ (e : Text × V). text_lt k e.0 ≡ true) m
      → All (λ (e : Text × V). text_lt j e.0 ≡ true) m
  above-All j k [] l h = tt
  above-All j k ((i, v) ∷ m) l (h, hs) = (text_lt_trans j k i l h, above-All j k m l hs)

  above-update :
      (j key : Text) (change : Option V → V) (m : List (Text × V))
      → text_lt j key ≡ true
      → All (λ (e : Text × V). text_lt j e.0 ≡ true) m
      → All (λ (e : Text × V). text_lt j e.0 ≡ true) (update key change m)
  unfolding update
  above-update j key change [] l h = (l, tt)
  above-update j key change ((k, v) ∷ m) l (h, hs) = elim (Bool-cases (text_eq k key)) [
    | inl e ↦ rw e (h, hs)
    | inr e ↦ elim (Bool-cases (text_lt key k)) [
      | inl g ↦ rw (e, g) (l, (h, hs))
      | inr g ↦ rw (e, g) (h, above-update j key change m l hs)
    ]
  ]

  pub update-HasOrderedKeys :
      (key : Text) (change : Option V → V) (m : List (Text × V))
      → HasOrderedKeys m
      → HasOrderedKeys (update key change m)
  unfolding update
  update-HasOrderedKeys key change [] h = (tt, tt)
  update-HasOrderedKeys key change ((k, v) ∷ m) (h, hs) = elim (Bool-cases (text_eq k key)) [
    | inl e ↦ rw e (h, hs)
    | inr e ↦ elim (Bool-cases (text_lt key k)) [
      | inl g ↦ rw (e, g) ((g, above-All key k m g h), (h, hs))
      | inr g ↦
          let before = text_lt_linear key k (text_eq_sym key k ∙ e) g in
          rw (e, g) (above-update k key change m before h, update-HasOrderedKeys key change m hs)
    ]
  ]
