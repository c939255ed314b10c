-- ===== src/Base/Lists.antt =====
-- Lists measured and indexed by native numbers, under the library's names.
use Prim.Native.Nat.{ℕ, zero, suc, ◌+◌, ◌-◌, ◌≤◌, ◌<◌, min}
use mathlib.Core.Path.{◌≡◌, refl, ap, sym, ◌∙◌}
use mathlib.Core.Logic.{◌≢◌}
use mathlib.Core.List.{List, [], ◌∷◌, ◌++◌, map}
use native.Mathlib.Omega.{arith}

module _ {ℓ} {A : Type ℓ} where
  abbrev pub length : List A → ℕ
  length [] = 0
  length (x ∷ xs) = suc (length xs)

  abbrev pub get_or : List A → ℕ → A → A
  get_or [] i d = d
  get_or (x ∷ xs) zero d = x
  get_or (x ∷ xs) (suc i) d = get_or xs i d

  -- A write out of bounds changes nothing.
  abbrev pub set : List A → ℕ → A → List A
  set [] i v = []
  set (x ∷ xs) zero v = v ∷ xs
  set (x ∷ xs) (suc i) v = x ∷ set xs i v

  abbrev pub take : ℕ → List A → List A
  take zero xs = []
  take (suc n) [] = []
  take (suc n) (x ∷ xs) = x ∷ take n xs

  abbrev pub drop : ℕ → List A → List A
  drop zero xs = xs
  drop (suc n) [] = []
  drop (suc n) (x ∷ xs) = drop n xs

  abbrev pub replicate : ℕ → A → List A
  replicate zero a = []
  replicate (suc n) a = a ∷ replicate n a

  abbrev pub All {κ} : (A → Type κ) → List A → Type κ
  All P [] = Unit {κ}
  All P (x ∷ xs) = P x × All P xs

module _ {ℓ} {A : Type ℓ} where
  -- Go's `xs[a:b]`, for a ≤ b ≤ len(xs).
  abbrev pub slice : List A → ℕ → ℕ → List A
  slice xs a b = take (b - a) (drop a xs)

  pub length-append : (xs ys : List A) → length (xs ++ ys) ≡ length xs + length ys
  length-append [] ys = omega arith
  length-append (x ∷ xs) ys = omega (arith, length-append xs ys)

  pub length-take : (n : ℕ) (xs : List A) → length (take n xs) ≡ min n (length xs)
  length-take zero xs = omega arith
  length-take (suc n) [] = omega arith
  length-take (suc n) (x ∷ xs) = omega (arith, length-take n xs)

  pub length-drop : (n : ℕ) (xs : List A) → length (drop n xs) ≡ length xs - n
  length-drop zero xs = omega arith
  length-drop (suc n) [] = omega arith
  length-drop (suc n) (x ∷ xs) = omega (arith, length-drop n xs)

  pub length-slice : (xs : List A) (a b : ℕ) → a ≤ b → b ≤ length xs → length (slice xs a b) ≡ b - a
  length-slice xs a b h k = omega (arith, length-take (b - a) (drop a xs), length-drop a xs)

  pub length-replicate : (n : ℕ) (a : A) → length (replicate n a) ≡ n
  length-replicate zero a = refl
  length-replicate (suc n) a = ap suc (length-replicate n a)

  pub length-set : (xs : List A) (i : ℕ) (v : A) → length (set xs i v) ≡ length xs
  length-set [] i v = refl
  length-set (x ∷ xs) zero v = refl
  length-set (x ∷ xs) (suc i) v = ap suc (length-set xs i v)

  pub get_or-set_self :
      (xs : List A) (i : ℕ) (v d : A) → i < length xs → get_or (set xs i v) i d ≡ v
  get_or-set_self [] i v d h = elim h [ ]
  get_or-set_self (x ∷ xs) zero v d h = refl
  get_or-set_self (x ∷ xs) (suc i) v d h = get_or-set_self xs i v d (omega arith)

  pub get_or-set_ne :
      (xs : List A) (i j : ℕ) (v d : A) → i ≢ j → get_or (set xs i v) j d ≡ get_or xs j d
  get_or-set_ne [] i j v d h = refl
  get_or-set_ne (x ∷ xs) zero zero v d h = absurd (h refl)
  get_or-set_ne (x ∷ xs) zero (suc j) v d h = refl
  get_or-set_ne (x ∷ xs) (suc i) zero v d h = refl
  get_or-set_ne (x ∷ xs) (suc i) (suc j) v d h = get_or-set_ne xs i j v d (λ e. h (ap suc e))

  pub get_or-replicate : (n i : ℕ) (a : A) → get_or (replicate n a) i a ≡ a
  get_or-replicate zero i a = refl
  get_or-replicate (suc n) zero a = refl
  get_or-replicate (suc n) (suc i) a = get_or-replicate n i a

  pub take-append-drop : (n : ℕ) (xs : List A) → take n xs ++ drop n xs ≡ xs
  take-append-drop zero xs = refl
  take-append-drop (suc n) [] = refl
  take-append-drop (suc n) (x ∷ xs) = rw (take-append-drop n xs)

  pub take-append : (xs ys : List A) → take (length xs) (xs ++ ys) ≡ xs
  take-append [] ys = refl
  take-append (x ∷ xs) ys = ap (◌∷◌ x) (take-append xs ys)

  pub drop-append : (xs ys : List A) → drop (length xs) (xs ++ ys) ≡ ys
  drop-append [] ys = refl
  drop-append (x ∷ xs) ys = drop-append xs ys

  pub take_all : (n : ℕ) (xs : List A) → length xs ≤ n → take n xs ≡ xs
  take_all zero [] h = refl
  take_all zero (x ∷ xs) h = absurd (omega arith)
  take_all (suc n) [] h = refl
  take_all (suc n) (x ∷ xs) h = ap (◌∷◌ x) (take_all n xs (omega arith))

  pub length-map {κ} : {B : Type κ} (f : A → B) (xs : List A) → length (map f xs) ≡ length xs
  length-map f [] = refl
  length-map f (x ∷ xs) = ap suc (length-map f xs)

  drop_nil : (k : ℕ) (xs : List A) → length xs ≡ 0 → drop k xs ≡ xs
  drop_nil zero xs h = refl
  drop_nil (suc k) [] h = refl
  drop_nil (suc k) (x ∷ xs) h = absurd (omega arith)

  pub drop-drop : (m n : ℕ) (xs : List A) → drop m (drop n xs) ≡ drop (n + m) xs
  drop-drop m zero xs = let e : m ≡ 0 + m = omega arith in ap (λ k. drop k xs) e
  drop-drop m (suc n) [] = drop_nil m [] refl ∙ sym (drop_nil (suc n + m) [] refl)
  drop-drop m (suc n) (x ∷ xs) =
      let e : suc (n + m) ≡ suc n + m = omega arith in
      drop-drop m n xs ∙ ap (λ k. drop k (x ∷ xs)) e

  take_nil : (k : ℕ) (xs : List A) → length xs ≡ 0 → take k xs ≡ xs
  take_nil zero [] h = refl
  take_nil zero (x ∷ xs) h = absurd (omega arith)
  take_nil (suc k) [] h = refl
  take_nil (suc k) (x ∷ xs) h = absurd (omega arith)

  pub slice-drop-take : (xs : List A) (a b : ℕ) → slice xs a b ≡ drop a (take b xs)
  slice-drop-take xs zero b = let e : b - 0 ≡ b = omega arith in ap (λ k. take k xs) e
  slice-drop-take [] (suc a) zero = let e : 0 - suc a ≡ 0 = omega arith in ap (λ k. take k []) e
  slice-drop-take [] (suc a) (suc b) = take_nil (suc b - suc a) [] refl
  slice-drop-take (x ∷ xs) (suc a) zero =
      let e : 0 - suc a ≡ 0 = omega arith in ap (λ k. take k (drop a xs)) e
  slice-drop-take (x ∷ xs) (suc a) (suc b) =
      let e : suc b - suc a ≡ b - a = omega arith in
      ap (λ k. take k (drop a xs)) e ∙ slice-drop-take xs a b

  -- A prefix of the first list is one of the whole.
  pub take-prefix :
      (n m : ℕ) (xs ys : List A) → n ≤ m → m ≤ length xs → take n (take m xs ++ ys) ≡ take n xs
  take-prefix zero m xs ys h k = refl
  take-prefix (suc n) zero xs ys h k = absurd (omega arith)
  take-prefix (suc n) (suc m) [] ys h k = absurd (omega arith)
  take-prefix (suc n) (suc m) (x ∷ xs) ys h k =
      ap (◌∷◌ x) (take-prefix n m xs ys (omega arith) (omega arith))

  pub get_or-append :
      (xs ys : List A) (i : ℕ) (d : A) → i < length xs → get_or (xs ++ ys) i d ≡ get_or xs i d
  get_or-append [] ys i d h = absurd (omega arith)
  get_or-append (x ∷ xs) ys zero d h = refl
  get_or-append (x ∷ xs) ys (suc i) d h = get_or-append xs ys i d (omega arith)

  pub get_or-take :
      (n : ℕ) (xs : List A) (i : ℕ) (d : A) → i < n → get_or (take n xs) i d ≡ get_or xs i d
  get_or-take zero xs i d h = absurd (omega arith)
  get_or-take (suc n) [] i d h = refl
  get_or-take (suc n) (x ∷ xs) zero d h = refl
  get_or-take (suc n) (x ∷ xs) (suc i) d h = get_or-take n xs i d (omega arith)

  pub slice-prefix :
      (a b n : ℕ) (xs ys : List A)
      → b ≤ n
      → n ≤ length xs
      → slice (take n xs ++ ys) a b ≡ slice xs a b
  slice-prefix a b n xs ys h k =
      slice-drop-take (take n xs ++ ys) a b
      ∙ ap (drop a) (take-prefix b n xs ys h k)
      ∙ sym (slice-drop-take xs a b)

  -- A list whose part behind `n` is replaced.
  pub drop-splice :
      (n m : ℕ) (xs ys : List A)
      → n ≤ m
      → n ≤ length xs
      → drop m (take n xs ++ ys) ≡ drop (m - n) ys
  drop-splice zero m xs ys h k = let e : m ≡ m - 0 = omega arith in ap (λ j. drop j ys) e
  drop-splice (suc n) zero xs ys h k = absurd (omega arith)
  drop-splice (suc n) (suc m) [] ys h k = absurd (omega arith)
  drop-splice (suc n) (suc m) (x ∷ xs) ys h k =
      let e : m - n ≡ suc m - suc n = omega arith in
      drop-splice n m xs ys (omega arith) (omega arith) ∙ ap (λ j. drop j ys) e

  pub get_or-splice :
      (n i : ℕ) (xs ys : List A) (d : A)
      → n ≤ length xs
      → get_or (take n xs ++ ys) (n + i) d ≡ get_or ys i d
  get_or-splice zero i xs ys d k = let e : 0 + i ≡ i = omega arith in ap (λ j. get_or ys j d) e
  get_or-splice (suc n) i [] ys d k = absurd (omega arith)
  get_or-splice (suc n) i (x ∷ xs) ys d k =
      let e : suc n + i ≡ suc (n + i) = omega arith in
      ap (λ j. get_or (x ∷ (take n xs ++ ys)) j d) e ∙ get_or-splice n i xs ys d (omega arith)

  pub get_or-drop : (n i : ℕ) (xs : List A) (d : A) → get_or (drop n xs) i d ≡ get_or xs (n + i) d
  get_or-drop zero i xs d = let e : i ≡ 0 + i = omega arith in ap (λ j. get_or xs j d) e
  get_or-drop (suc n) i [] d = refl
  get_or-drop (suc n) i (x ∷ xs) d =
      let e : suc (n + i) ≡ suc n + i = omega arith in
      get_or-drop n i xs d ∙ ap (λ j. get_or (x ∷ xs) j d) e

  pub drop-drop_to : (n m : ℕ) (xs : List A) → n ≤ m → drop (m - n) (drop n xs) ≡ drop m xs
  drop-drop_to n m xs h =
      let e : n + (m - n) ≡ m = omega arith in drop-drop (m - n) n xs ∙ ap (λ j. drop j xs) e

  -- The same for a first part that has length `n`.
  pub drop-joined :
      (xs : List A) (n m : ℕ) (ys : List A)
      → n ≤ m
      → length xs ≡ n
      → drop m (xs ++ ys) ≡ drop (m - n) ys
  drop-joined xs n m ys h e =
      ap (λ zs. drop m (zs ++ ys)) (sym (take_all n xs (omega arith)))
      ∙ drop-splice n m xs ys h (omega arith)

  pub take-joined : (xs : List A) (n : ℕ) (ys : List A) → length xs ≡ n → take n (xs ++ ys) ≡ xs
  take-joined xs n ys e = ap (λ m. take m (xs ++ ys)) (sym e) ∙ take-append xs ys

  pub length_nil : (xs : List A) → length xs ≡ 0 → xs ≡ []
  length_nil [] h = refl
  length_nil (x ∷ xs) h = absurd (omega arith)

  pub drop_past : (n : ℕ) (xs : List A) → length xs ≤ n → drop n xs ≡ []
  drop_past n xs h = length_nil (drop n xs) (omega (arith, length-drop n xs))
