-- ===== src/Prelude/Positions.antt =====
-- What stands at a position of a list that is put together or taken apart.
use rstr.Prelude.{
  length, get_elem?, take, drop, ℕ, zero, suc, ◌+◌, ◌<◌, ◌≡◌, refl, ap, some, List, [], ◌∷◌, ◌++◌,
  arith,
}

module _ {A : Type 0} where
  pub get_elem?-left :
      (xs ys : List A) (k : ℕ) → k < length xs → get_elem? (xs ++ ys) k ≡ get_elem? xs k
  get_elem?-left [] ys k h = absurd (omega arith)
  get_elem?-left (x ∷ xs) ys zero h = refl
  get_elem?-left (x ∷ xs) ys (suc k) h = get_elem?-left xs ys k (omega arith)

  pub get_elem?-right :
      (xs ys : List A) (k m : ℕ) → k ≡ length xs + m → get_elem? (xs ++ ys) k ≡ get_elem? ys m
  get_elem?-right [] ys k m h = ap (get_elem? ys) (omega arith)
  get_elem?-right (x ∷ xs) ys zero m h = absurd (omega arith)
  get_elem?-right (x ∷ xs) ys (suc k) m h = get_elem?-right xs ys k m (omega arith)

  pub get_elem?-drop :
      (n k m : ℕ) (xs : List A) → m ≡ n + k → get_elem? (drop n xs) k ≡ get_elem? xs m
  get_elem?-drop zero k m xs h = ap (get_elem? xs) (omega arith)
  get_elem?-drop (suc n) k m [] h = refl
  get_elem?-drop (suc n) k zero (x ∷ xs) h = absurd (omega arith)
  get_elem?-drop (suc n) k (suc m) (x ∷ xs) h = get_elem?-drop n k m xs (omega arith)

  pub get_elem?-take : (n k : ℕ) (xs : List A) → k < n → get_elem? (take n xs) k ≡ get_elem? xs k
  get_elem?-take zero k xs h = absurd (omega arith)
  get_elem?-take (suc n) k [] h = refl
  get_elem?-take (suc n) zero (x ∷ xs) h = refl
  get_elem?-take (suc n) (suc k) (x ∷ xs) h = get_elem?-take n k xs (omega arith)

  -- Lists of one length with the same elements are the same.
  pub get_elem?-ext :
      (xs ys : List A)
      → length xs ≡ length ys
      → ((k : ℕ) → k < length xs → get_elem? xs k ≡ get_elem? ys k)
      → xs ≡ ys
  get_elem?-ext [] [] e h = refl
  get_elem?-ext [] (y ∷ ys) e h = absurd (omega arith)
  get_elem?-ext (x ∷ xs) [] e h = absurd (omega arith)
  get_elem?-ext (x ∷ xs) (y ∷ ys) e h =
      let here : some x ≡ some y = h 0 (omega arith) in
      let head : x ≡ y = ground arith in
      let tail : xs ≡ ys = get_elem?-ext xs ys (omega arith) (λ k lt. h (suc k) (omega arith)) in
      rw (head, tail) refl
