-- ===== src/Prelude/Sort.antt =====
-- `std::ranges::sort` by a key in ℕ: of equal keys the standard leaves the order open; here it is kept.
use modern_cpp_room_server.Prelude.{
  ℕ, suc, ◌≤◌, ◌<◌, ◌≡◌, refl, sym, ap, ap₂, subst, ◌∙◌, Option, none, some, List, [], ◌∷◌, ◌==◌,
  leb, if◌then◌else◌, length, arith,
}

module _ {A : Type 0} (key : A → ℕ) where
  unfoldable pub insert_by : A → List A → List A
  insert_by a [] = a ∷ []
  insert_by a (x ∷ xs) = if leb (key a) (key x) then a ∷ x ∷ xs else x ∷ insert_by a xs

  unfoldable pub sort_by : List A → List A
  unfolding insert_by
  sort_by [] = []
  sort_by (x ∷ xs) = insert_by x (sort_by xs)

  unfoldable pub find_by : ℕ → List A → Option A
  find_by k [] = none
  find_by k (x ∷ xs) = if key x == k then some x else find_by k xs

  -- The keys rise strictly, from `b` on.
  abbrev pub Ascending : ℕ → List A → Type 0
  Ascending b [] = Unit {0}
  Ascending b (x ∷ xs) = (b ≤ key x) × Ascending (suc (key x)) xs

  length-insert_by : (a : A) (xs : List A) → length (insert_by a xs) ≡ suc (length xs)
  unfolding insert_by
  length-insert_by a [] = refl
  length-insert_by a (x ∷ xs) = ground (arith, length-insert_by a xs)

  pub length-sort_by : (xs : List A) → length (sort_by xs) ≡ length xs
  unfolding sort_by
  length-sort_by [] = refl
  length-sort_by (x ∷ xs) = length-insert_by x (sort_by xs) ∙ ap suc (length-sort_by xs)

  find_by-insert_by :
      (k : ℕ) (a : A) (xs : List A)
      → find_by k (insert_by a xs) ≡ (if key a == k then some a else find_by k xs)
  unfolding find_by insert_by
  find_by-insert_by k a [] = refl
  find_by-insert_by k a (x ∷ xs) = ground (arith, find_by-insert_by k a xs)

  pub find_by-sort_by : (k : ℕ) (xs : List A) → find_by k (sort_by xs) ≡ find_by k xs
  unfolding sort_by find_by
  find_by-sort_by k [] = refl
  find_by-sort_by k (x ∷ xs) =
      find_by-insert_by k x (sort_by xs)
      ∙ ap (λ r. if key x == k then some x else r) (find_by-sort_by k xs)

  Ascending-mono : (b c : ℕ) (xs : List A) → b ≤ c → Ascending c xs → Ascending b xs
  Ascending-mono b c [] h s = tt
  Ascending-mono b c (x ∷ xs) h s = (omega arith, s.1)

  insert_by-Ascending :
      (b : ℕ) (a : A) (xs : List A)
      → b ≤ key a
      → find_by (key a) xs ≡ none
      → Ascending b xs
      → Ascending b (insert_by a xs)
  unfolding insert_by find_by
  insert_by-Ascending b a [] h e s = (h, tt)
  insert_by-Ascending b a (x ∷ xs) h e s =
      ground (arith, λ (p : suc (key x) ≤ key a). insert_by-Ascending (suc (key x)) a xs p)

  abbrev pub DistinctKeys : List A → Type 0
  DistinctKeys [] = Unit {0}
  DistinctKeys (x ∷ xs) = (find_by (key x) xs ≡ none) × DistinctKeys xs

  pub sort_by-Ascending : (xs : List A) → DistinctKeys xs → Ascending 0 (sort_by xs)
  unfolding sort_by
  sort_by-Ascending [] d = tt
  sort_by-Ascending (x ∷ xs) d =
      insert_by-Ascending 0 x (sort_by xs) (omega arith) (find_by-sort_by (key x) xs ∙ d.0)
        (sort_by-Ascending xs (d.1))

  find_below : (b k : ℕ) (xs : List A) → Ascending b xs → k < b → find_by k xs ≡ none
  unfolding find_by
  find_below b k [] s h = refl
  find_below b k (x ∷ xs) s h = ground (arith, find_below (suc (key x)) k xs (s.1))

  same_head :
      (b : ℕ) (x y : A) (xs ys : List A)
      → Ascending b (x ∷ xs)
      → Ascending b (y ∷ ys)
      → ((k : ℕ) → find_by k (x ∷ xs) ≡ find_by k (y ∷ ys))
      → x ≡ y
  unfolding find_by
  same_head b x y xs ys s t h = ground (
    arith,
    h (key x),
    h (key y),
    find_below (suc (key y)) (key x) ys (t.1),
    find_below (suc (key x)) (key y) xs (s.1),
  )

  same_tail :
      (x : A) (xs ys : List A) (k : ℕ)
      → Ascending (suc (key x)) xs
      → Ascending (suc (key x)) ys
      → find_by k (x ∷ xs) ≡ find_by k (x ∷ ys)
      → find_by k xs ≡ find_by k ys
  unfolding find_by
  same_tail x xs ys k s t h =
      ground (arith, find_below (suc (key x)) k xs s, find_below (suc (key x)) k ys t)

  -- A strictly rising list is determined by what can be looked up in it.
  pub Ascending-unique :
      (b : ℕ) (xs ys : List A)
      → Ascending b xs
      → Ascending b ys
      → ((k : ℕ) → find_by k xs ≡ find_by k ys)
      → xs ≡ ys
  unfolding find_by
  Ascending-unique b [] [] s t h = refl
  Ascending-unique b [] (y ∷ ys) s t h = ground (arith, h (key y))
  Ascending-unique b (x ∷ xs) [] s t h = ground (arith, h (key x))
  Ascending-unique b (x ∷ xs) (y ∷ ys) s t h =
      let e : x ≡ y = same_head b x y xs ys s t h in
      let t' : Ascending (suc (key x)) ys = subst (λ z. Ascending (suc (key z)) ys) (sym e) (t.1) in
      ap₂ ◌∷◌ e (
        Ascending-unique (suc (key x)) xs ys (s.1) t' λ k.
          same_tail x xs ys k (s.1) t'
            (subst (λ z. find_by k (x ∷ xs) ≡ find_by k (z ∷ ys)) (sym e) (h k)))
