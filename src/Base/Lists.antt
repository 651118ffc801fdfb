-- ===== src/Base/Lists.antt =====
-- Lists measured and indexed by native numbers, under the library's names.
use Prim.Native.Nat.{ℕ, zero, suc, ◌+◌, ◌-◌, ◌≤◌, ◌<◌, min}
use mathlib.Core.Path.{◌≡◌, refl, ap, sym, ◌∙◌}
use mathlib.Core.List.{List, [], ◌∷◌, ◌++◌}
use mathlib.Core.Option.{Option, none, some}
use native.Mathlib.Omega.{arith}
use tcp_udp_client_server.Base.Tests.{◌==◌, if◌then◌else◌}

module _ {ℓ} {A : Type ℓ} where
  abbrev pub length : List A → ℕ
  length [] = 0
  length (x ∷ xs) = suc (length xs)

  abbrev pub get_elem? : List A → ℕ → Option A
  get_elem? [] i = none
  get_elem? (x ∷ xs) zero = some x
  get_elem? (x ∷ xs) (suc i) = get_elem? xs i

  abbrev pub take : ℕ → List A → List A
  take zero xs = []
  take (suc n) [] = []
  take (suc n) (x ∷ xs) = x ∷ take n xs

  abbrev pub drop : ℕ → List A → List A
  drop zero xs = xs
  drop (suc n) [] = []
  drop (suc n) (x ∷ xs) = drop n xs

  abbrev pub replicate : ℕ → A → List A
  replicate zero a = []
  replicate (suc n) a = a ∷ replicate n a

  pub length-append : (xs ys : List A) → length (xs ++ ys) ≡ length xs + length ys
  length-append [] ys = omega arith
  length-append (x ∷ xs) ys = omega (arith, length-append xs ys)

module _ {ℓ} {A : Type ℓ} where
  pub take-append-drop : (n : ℕ) (xs : List A) → take n xs ++ drop n xs ≡ xs
  take-append-drop zero xs = refl
  take-append-drop (suc n) [] = refl
  take-append-drop (suc n) (x ∷ xs) = rw (take-append-drop n xs)

  pub length-take : (n : ℕ) (xs : List A) → length (take n xs) ≡ min n (length xs)
  length-take zero xs = omega arith
  length-take (suc n) [] = omega arith
  length-take (suc n) (x ∷ xs) = omega (arith, length-take n xs)

  pub length-drop : (n : ℕ) (xs : List A) → length (drop n xs) ≡ length xs - n
  length-drop zero xs = omega arith
  length-drop (suc n) [] = omega arith
  length-drop (suc n) (x ∷ xs) = omega (arith, length-drop n xs)

  pub length-replicate : (n : ℕ) (a : A) → length (replicate n a) ≡ n
  length-replicate zero a = refl
  length-replicate (suc n) a = ap suc (length-replicate n a)

  -- The first part of a joined list, cut off and dropped by its own length.
  pub take-append : (xs ys : List A) {n : ℕ} → n ≡ length xs → take n (xs ++ ys) ≡ xs
  take-append [] ys {n = zero} e = refl
  take-append [] ys {n = suc n} e = absurd (omega arith)
  take-append (x ∷ xs) ys {n = zero} e = absurd (omega arith)
  take-append (x ∷ xs) ys {n = suc n} e = rw (take-append xs ys {n = n} (omega arith))

  pub drop-append : (xs ys : List A) {n : ℕ} → n ≡ length xs → drop n (xs ++ ys) ≡ ys
  drop-append [] ys {n = zero} e = refl
  drop-append [] ys {n = suc n} e = absurd (omega arith)
  drop-append (x ∷ xs) ys {n = zero} e = absurd (omega arith)
  drop-append (x ∷ xs) ys {n = suc n} e = drop-append xs ys {n = n} (omega arith)

module _ {ℓ} {A : Type ℓ} where
  -- A write out of bounds changes nothing.
  abbrev pub set : List A → ℕ → A → List A
  set [] i v = []
  set (x ∷ xs) zero v = v ∷ xs
  set (x ∷ xs) (suc i) v = x ∷ set xs i v

  pub length-set : (xs : List A) (i : ℕ) (v : A) → length (set xs i v) ≡ length xs
  length-set [] i v = refl
  length-set (x ∷ xs) zero v = refl
  length-set (x ∷ xs) (suc i) v = ap suc (length-set xs i v)

  pub get_elem?-set :
      (xs : List A) (i j : ℕ) (v : A)
      → i < length xs
      → get_elem? (set xs i v) j ≡ (if j == i then some v else get_elem? xs j)
  get_elem?-set [] i j v h = elim h [ ]
  get_elem?-set (x ∷ xs) zero zero v h = refl
  get_elem?-set (x ∷ xs) zero (suc j) v h = ground arith
  get_elem?-set (x ∷ xs) (suc i) zero v h = ground arith
  get_elem?-set (x ∷ xs) (suc i) (suc j) v h = ground (arith, get_elem?-set xs i j v)

  pub get_elem?-lt : (xs : List A) (i : ℕ) → i < length xs → (x : A) × (get_elem? xs i ≡ some x)
  get_elem?-lt [] i h = elim h [ ]
  get_elem?-lt (x ∷ xs) zero h = (x, refl)
  get_elem?-lt (x ∷ xs) (suc i) h = get_elem?-lt xs i (omega arith)

  pub get_elem?-ge : (xs : List A) (i : ℕ) → length xs ≤ i → get_elem? xs i ≡ none
  get_elem?-ge [] i h = refl
  get_elem?-ge (x ∷ xs) zero h = absurd (omega arith)
  get_elem?-ge (x ∷ xs) (suc i) h = get_elem?-ge xs i (omega arith)

module _ {ℓ} {A : Type ℓ} where
  pub drop-drop : (a b : ℕ) (xs : List A) {n : ℕ} → n ≡ a + b → drop n xs ≡ drop b (drop a xs)
  drop-drop zero b xs {n} e = ap (λ k. drop k xs) (omega arith)
  drop-drop (suc a) b [] {n} e = drop_nil n ∙ sym (drop_nil b)
    where
      drop_nil : (k : ℕ) → drop {A = A} k [] ≡ []
      drop_nil zero = refl
      drop_nil (suc k) = refl
  drop-drop (suc a) b (x ∷ xs) {n = zero} e = absurd (omega arith)
  drop-drop (suc a) b (x ∷ xs) {n = suc n} e = drop-drop a b xs {n = n} (omega arith)

  -- The whole of a list is its first `length` elements.
  pub take_whole : (xs : List A) {n : ℕ} → n ≡ length xs → take n xs ≡ xs
  take_whole [] {n = zero} e = refl
  take_whole [] {n = suc n} e = refl
  take_whole (x ∷ xs) {n = zero} e = absurd (omega arith)
  take_whole (x ∷ xs) {n = suc n} e = ap (◌∷◌ x) (take_whole xs {n = n} (omega arith))

  -- Where the cut falls behind the first part of a joined list.
  pub take-append_more :
      (xs ys : List A) {n : ℕ} (k : ℕ) → n ≡ length xs + k → take n (xs ++ ys) ≡ xs ++ take k ys
  take-append_more [] ys {n} k e = ap (λ i. take i ys) (omega arith)
  take-append_more (x ∷ xs) ys {n = zero} k e = absurd (omega arith)
  take-append_more (x ∷ xs) ys {n = suc n} k e =
      ap (◌∷◌ x) (take-append_more xs ys {n = n} k (omega arith))

  pub drop-append_more :
      (xs ys : List A) {n : ℕ} (k : ℕ) → n ≡ length xs + k → drop n (xs ++ ys) ≡ drop k ys
  drop-append_more [] ys {n} k e = ap (λ i. drop i ys) (omega arith)
  drop-append_more (x ∷ xs) ys {n = zero} k e = absurd (omega arith)
  drop-append_more (x ∷ xs) ys {n = suc n} k e = drop-append_more xs ys {n = n} k (omega arith)

  pub take-replicate : (a : A) (n m : ℕ) → n ≤ m → take n (replicate m a) ≡ replicate n a
  take-replicate a zero m h = refl
  take-replicate a (suc n) zero h = absurd (omega arith)
  take-replicate a (suc n) (suc m) h = ap (◌∷◌ a) (take-replicate a n m (omega arith))

  pub drop-replicate : (a : A) (n m : ℕ) → drop n (replicate m a) ≡ replicate (m - n) a
  drop-replicate a zero m = ap (λ k. replicate k a) (omega arith)
  drop-replicate a (suc n) zero = let z : zero - suc n ≡ zero = omega arith in rw z
  drop-replicate a (suc n) (suc m) =
      let less : m - n ≡ suc m - suc n = omega arith in
      drop-replicate a n m ∙ ap (λ k. replicate k a) less

  pub replicate-append :
      (a : A) (n m : ℕ) {k : ℕ} → k ≡ n + m → replicate n a ++ replicate m a ≡ replicate k a
  replicate-append a zero m {k} e = ap (λ i. replicate i a) (omega arith)
  replicate-append a (suc n) m {k = zero} e = absurd (omega arith)
  replicate-append a (suc n) m {k = suc k} e =
      ap (◌∷◌ a) (replicate-append a n m {k = k} (omega arith))

  pub take_short : (n : ℕ) (xs : List A) → length xs ≤ n → take n xs ≡ xs
  take_short zero [] h = refl
  take_short zero (x ∷ xs) h = absurd (omega arith)
  take_short (suc n) [] h = refl
  take_short (suc n) (x ∷ xs) h = ap (◌∷◌ x) (take_short n xs (omega arith))
