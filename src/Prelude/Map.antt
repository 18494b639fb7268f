-- ===== src/Prelude/Map.antt =====
-- `std::unordered_map` with 64-bit keys as an association list, in the unspecified order in which the
-- table would be walked.
use modern_cpp_room_server.Prelude.{
  ℕ, suc, ◌≡◌, refl, ◌⊎◌, Bool, true, false, Option, none, some, List, [], ◌∷◌, ◌==◌, if◌then◌else◌,
  length, arith,
}

module _ {ℓ} {V : Type ℓ} where
  unfoldable pub find : ℕ → List (ℕ × V) → Option V
  find k [] = none
  find k ((j, v) ∷ m) = if j == k then some v else find k m

  -- `(*iterator).second = v`, for a key that is there
  unfoldable pub assign : ℕ → V → List (ℕ × V) → List (ℕ × V)
  assign k v [] = []
  assign k v ((j, w) ∷ m) = if j == k then (j, v) ∷ m else (j, w) ∷ assign k v m

  unfoldable pub erase : ℕ → List (ℕ × V) → List (ℕ × V)
  erase k [] = []
  erase k ((j, w) ∷ m) = if j == k then m else (j, w) ∷ erase k m

  -- `try_emplace`: the map afterwards, and whether the key is new.
  unfoldable pub try_emplace : ℕ → V → List (ℕ × V) → List (ℕ × V) × Bool
  try_emplace k v m = elim (find k m) [ none ↦ ((k, v) ∷ m, true) | some w ↦ (m, false) ]

  -- Every key stands once, as in any map.
  abbrev pub Distinct : List (ℕ × V) → Type ℓ
  Distinct [] = Unit {ℓ}
  Distinct ((k, v) ∷ m) = (find k m ≡ none) × Distinct m

  pub find-assign :
      (k j : ℕ) (v w : V) (m : List (ℕ × V))
      → find k m ≡ some w
      → find j (assign k v m) ≡ (if k == j then some v else find j m)
  unfolding find assign
  find-assign k j v w [] h = ground arith
  find-assign k j v w ((i, u) ∷ m) h = ground (arith, find-assign k j v w m)

  find-assign-none :
      (k j : ℕ) (v : V) (m : List (ℕ × V)) → find j m ≡ none → find j (assign k v m) ≡ none
  unfolding find assign
  find-assign-none k j v [] h = refl
  find-assign-none k j v ((i, u) ∷ m) h = ground (arith, find-assign-none k j v m)

  pub assign-Distinct : (k : ℕ) (v : V) (m : List (ℕ × V)) → Distinct m → Distinct (assign k v m)
  unfolding assign
  assign-Distinct k v [] d = d
  assign-Distinct k v ((i, u) ∷ m) d =
      ground (arith, find-assign-none k i v m (d.0), assign-Distinct k v m (d.1))

  pub length-assign : (k : ℕ) (v : V) (m : List (ℕ × V)) → length (assign k v m) ≡ length m
  unfolding assign
  length-assign k v [] = refl
  length-assign k v ((i, u) ∷ m) = ground (arith, length-assign k v m)

  pub find-erase :
      (k j : ℕ) (m : List (ℕ × V))
      → Distinct m
      → find j (erase k m) ≡ (if k == j then none else find j m)
  unfolding find erase
  find-erase k j [] d = ground arith
  find-erase k j ((i, u) ∷ m) d = ground (arith, find-erase k j m (d.1), d.0)

  find-erase-none : (k j : ℕ) (m : List (ℕ × V)) → find j m ≡ none → find j (erase k m) ≡ none
  unfolding find erase
  find-erase-none k j [] h = refl
  find-erase-none k j ((i, u) ∷ m) h = ground (arith, find-erase-none k j m)

  pub erase-Distinct : (k : ℕ) (m : List (ℕ × V)) → Distinct m → Distinct (erase k m)
  unfolding erase
  erase-Distinct k [] d = d
  erase-Distinct k ((i, u) ∷ m) d =
      ground (arith, find-erase-none k i m (d.0), erase-Distinct k m (d.1))

  pub length-erase :
      (k : ℕ) (v : V) (m : List (ℕ × V)) → find k m ≡ some v → suc (length (erase k m)) ≡ length m
  unfolding find erase
  length-erase k v [] h = ground arith
  length-erase k v ((i, u) ∷ m) h = ground (arith, length-erase k v m)

  pub erase_absent : (k : ℕ) (m : List (ℕ × V)) → find k m ≡ none → erase k m ≡ m
  unfolding find erase
  erase_absent k [] h = refl
  erase_absent k ((i, u) ∷ m) h = ground (arith, erase_absent k m)

  pub try_emplace-Distinct :
      (k : ℕ) (v : V) (m : List (ℕ × V)) → Distinct m → Distinct (try_emplace k v m).0
  unfolding try_emplace
  try_emplace-Distinct k v m d = ground arith

  pub try_emplace_cases :
      (k : ℕ) (v : V) (m : List (ℕ × V))
      → (find k m ≡ none) × (try_emplace k v m ≡ ((k, v) ∷ m, true))
        ⊎ (try_emplace k v m ≡ (m, false))
  unfolding try_emplace
  try_emplace_cases k v m = ground arith
