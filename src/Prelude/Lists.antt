-- ===== src/Prelude/Lists.antt =====
-- C arrays and strings as lists, measured and indexed by native numbers.
use Prim.Native.Nat.{ℕ, zero, suc, ◌+◌, ◌-◌, ◌≤◌, ◌<◌, min}
use mathlib.Core.Path.{◌≡◌, refl, ap, ap₂}
use mathlib.Core.List.{List, [], ◌∷◌, ◌++◌, map}
use native.Mathlib.Omega.{arith}
use a76xx.Prelude.Tests.{ltb, ◌==◌, if◌then◌else◌}

module _ {ℓ} {A : Type ℓ} where
  abbrev pub length : List A → ℕ
  length [] = 0
  length (x ∷ xs) = suc (length xs)

  abbrev pub get_or : List A → ℕ → A → A
  get_or [] i d = d
  get_or (x ∷ xs) zero d = x
  get_or (x ∷ xs) (suc i) d = get_or xs i d

  -- A write out of bounds changes nothing.
  abbrev pub set : List A → ℕ → A → List A
  set [] i v = []
  set (x ∷ xs) zero v = v ∷ xs
  set (x ∷ xs) (suc i) v = x ∷ set xs i v

  abbrev pub take : ℕ → List A → List A
  take zero xs = []
  take (suc n) [] = []
  take (suc n) (x ∷ xs) = x ∷ take n xs

  abbrev pub drop : ℕ → List A → List A
  drop zero xs = xs
  drop (suc n) [] = []
  drop (suc n) (x ∷ xs) = drop n xs

  abbrev pub replicate : ℕ → A → List A
  replicate zero a = []
  replicate (suc n) a = a ∷ replicate n a

  -- `memcpy(dst + off, src, length src)`.
  abbrev pub copy_at : List A → ℕ → List A → List A
  copy_at [] off src = []
  copy_at (x ∷ xs) zero [] = x ∷ xs
  copy_at (x ∷ xs) zero (v ∷ src) = v ∷ copy_at xs zero src
  copy_at (x ∷ xs) (suc off) src = x ∷ copy_at xs off src

  -- The values of `f` at `i`, `i + 1`, and so on.
  abbrev pub tabulate : ℕ → ℕ → (ℕ → A) → List A
  tabulate i zero f = []
  tabulate i (suc n) f = f i ∷ tabulate (suc i) n f

module _ {ℓ} {A : Type ℓ} where
  pub length-append : (xs ys : List A) → length (xs ++ ys) ≡ length xs + length ys
  length-append [] ys = omega arith
  length-append (x ∷ xs) ys = omega (arith, length-append xs ys)

  pub length-take : (n : ℕ) (xs : List A) → length (take n xs) ≡ min n (length xs)
  length-take zero xs = omega arith
  length-take (suc n) [] = omega arith
  length-take (suc n) (x ∷ xs) = omega (arith, length-take n xs)

  pub length-drop : (n : ℕ) (xs : List A) → length (drop n xs) ≡ length xs - n
  length-drop zero xs = omega arith
  length-drop (suc n) [] = omega arith
  length-drop (suc n) (x ∷ xs) = omega (arith, length-drop n xs)

  pub length-copy_at :
      (xs : List A) (off : ℕ) (src : List A) → length (copy_at xs off src) ≡ length xs
  length-copy_at [] off src = refl
  length-copy_at (x ∷ xs) zero [] = refl
  length-copy_at (x ∷ xs) zero (v ∷ src) = ap suc (length-copy_at xs zero src)
  length-copy_at (x ∷ xs) (suc off) src = ap suc (length-copy_at xs off src)

  pub length-tabulate : (i n : ℕ) (f : ℕ → A) → length (tabulate i n f) ≡ n
  length-tabulate i zero f = refl
  length-tabulate i (suc n) f = ap suc (length-tabulate (suc i) n f)

  pub length-map {κ} : {B : Type κ} (f : A → B) (xs : List A) → length (map f xs) ≡ length xs
  length-map f [] = refl
  length-map f (x ∷ xs) = ap suc (length-map f xs)

  pub take-append-drop : (n : ℕ) (xs : List A) → take n xs ++ drop n xs ≡ xs
  take-append-drop zero xs = refl
  take-append-drop (suc n) [] = refl
  take-append-drop (suc n) (x ∷ xs) = ap (λ (r : List A). x ∷ r) (take-append-drop n xs)

  pub get_or-append :
      (xs ys : List A) (i : ℕ) (d : A)
      → get_or (xs ++ ys) i d
        ≡ (if ltb i (length xs) then get_or xs i d else get_or ys (i - length xs) d)
  get_or-append [] ys i d = ground arith
  get_or-append (x ∷ xs) ys zero d = ground arith
  get_or-append (x ∷ xs) ys (suc i) d = ground (arith, get_or-append xs ys i d)

  pub get_or-take :
      (n : ℕ) (xs : List A) (i : ℕ) (d : A) → i < n → get_or (take n xs) i d ≡ get_or xs i d
  get_or-take zero xs i d h = absurd (omega arith)
  get_or-take (suc n) [] i d h = refl
  get_or-take (suc n) (x ∷ xs) zero d h = refl
  get_or-take (suc n) (x ∷ xs) (suc i) d h = get_or-take n xs i d (omega arith)

  pub get_or-drop :
      (n : ℕ) (xs : List A) (i : ℕ) (d : A) → get_or (drop n xs) i d ≡ get_or xs (n + i) d
  get_or-drop zero xs i d = ap (λ k. get_or xs k d) (omega arith)
  get_or-drop (suc n) [] i d = refl
  get_or-drop (suc n) (x ∷ xs) i d =
      let e : suc n + i ≡ suc (n + i) = omega arith in ground (arith, get_or-drop n xs i d, e)

  pub get_or-tabulate :
      (i n : ℕ) (f : ℕ → A) (j : ℕ) (d : A) → j < n → get_or (tabulate i n f) j d ≡ f (i + j)
  get_or-tabulate i zero f j d h = absurd (omega arith)
  get_or-tabulate i (suc n) f zero d h = ap f (omega arith)
  get_or-tabulate i (suc n) f (suc j) d h =
      let e : suc i + j ≡ i + suc j = omega arith in
      ground (arith, get_or-tabulate (suc i) n f j d, ap f e)

  pub get_or-copy_at :
      (xs : List A) (off : ℕ) (src : List A) (i : ℕ) (d : A)
      → i < length xs
      → get_or (copy_at xs off src) i d ≡ (
          if ltb i off
          then get_or xs i d
          else if ltb i (off + length src)
          then get_or src (i - off) d
          else get_or xs i d)
  get_or-copy_at [] off src i d h = absurd (omega arith)
  get_or-copy_at (x ∷ xs) zero [] i d h = ground arith
  get_or-copy_at (x ∷ xs) zero (v ∷ src) zero d h = ground arith
  get_or-copy_at (x ∷ xs) zero (v ∷ src) (suc i) d h =
      ground (arith, get_or-copy_at xs zero src i d)
  get_or-copy_at (x ∷ xs) (suc off) src zero d h = ground arith
  get_or-copy_at (x ∷ xs) (suc off) src (suc i) d h = ground (arith, get_or-copy_at xs off src i d)

  pub length-set : (xs : List A) (i : ℕ) (v : A) → length (set xs i v) ≡ length xs
  length-set [] i v = refl
  length-set (x ∷ xs) zero v = refl
  length-set (x ∷ xs) (suc i) v = ap suc (length-set xs i v)

  pub get_or-set :
      (xs : List A) (i : ℕ) (v : A) (j : ℕ) (d : A)
      → i < length xs
      → get_or (set xs i v) j d ≡ (if i == j then v else get_or xs j d)
  get_or-set [] i v j d h = absurd (omega arith)
  get_or-set (x ∷ xs) zero v zero d h = ground arith
  get_or-set (x ∷ xs) zero v (suc j) d h = ground arith
  get_or-set (x ∷ xs) (suc i) v zero d h = ground arith
  get_or-set (x ∷ xs) (suc i) v (suc j) d h = ground (arith, get_or-set xs i v j d)

  -- Lists are equal if they have one length and the same elements.
  pub list_ext :
      (d : A) (xs ys : List A)
      → length xs ≡ length ys
      → ((i : ℕ) → i < length xs → get_or xs i d ≡ get_or ys i d)
      → xs ≡ ys
  list_ext d [] [] e h = refl
  list_ext d [] (y ∷ ys) e h = absurd (omega arith)
  list_ext d (x ∷ xs) [] e h = absurd (omega arith)
  list_ext d (x ∷ xs) (y ∷ ys) e h =
      ap₂ ◌∷◌ (h 0 (omega arith)) (list_ext d xs ys (omega arith) (λ i p. h (suc i) (omega arith)))

  pub take-append : (xs ys : List A) → take (length xs) (xs ++ ys) ≡ xs
  take-append [] ys = refl
  take-append (x ∷ xs) ys = ap (λ (t : List A). x ∷ t) (take-append xs ys)

  pub drop-append : (xs ys : List A) → drop (length xs) (xs ++ ys) ≡ ys
  drop-append [] ys = refl
  drop-append (x ∷ xs) ys = drop-append xs ys

  pub drop-drop : (m n : ℕ) (xs : List A) → drop (m + n) xs ≡ drop n (drop m xs)
  drop-drop zero n xs = ap (λ k. drop k xs) (omega arith)
  drop-drop (suc m) n [] = let e : suc m + n ≡ suc (m + n) = omega arith in rw e (nothing n)
    where
      nothing : (k : ℕ) → ◌≡◌ {A = List A} [] (drop k [])
      nothing zero = refl
      nothing (suc k) = refl
  drop-drop (suc m) n (x ∷ xs) =
      let e : suc m + n ≡ suc (m + n) = omega arith in rw e (drop-drop m n xs)

  -- The front of an array behind a write that fits.
  pub take-copy_at :
      (xs : List A) (off : ℕ) (src : List A)
      → off + length src ≤ length xs
      → take (off + length src) (copy_at xs off src) ≡ take off xs ++ src
  take-copy_at [] zero [] h = refl
  take-copy_at [] zero (v ∷ src) h = absurd (omega arith)
  take-copy_at [] (suc off) src h = absurd (omega arith)
  take-copy_at (x ∷ xs) zero [] h = refl
  take-copy_at (x ∷ xs) zero (v ∷ src) h =
      let e : 0 + suc (length src) ≡ suc (0 + length src) = omega arith in
      rw e (ap (λ (t : List A). v ∷ t) (take-copy_at xs zero src (omega arith)))
  take-copy_at (x ∷ xs) (suc off) src h =
      let e : suc off + length src ≡ suc (off + length src) = omega arith in
      rw e (ap (λ (t : List A). x ∷ t) (take-copy_at xs off src (omega arith)))
