-- ===== src/Base/Lists.antt =====
-- Lists measured by native numbers, predicates on all entries, and sums.
use Prim.Native.Nat.{ℕ, zero, suc, ◌+◌, ◌≤◌, min}
use mathlib.Core.Path.{◌≡◌, refl, ap, sym, ◌∙◌}
use mathlib.Core.List.{List, [], ◌∷◌, ◌++◌, map}
use native.Mathlib.Omega.{arith}

module _ {ℓ} {A : Type ℓ} where
  abbrev pub length : List A → ℕ
  length [] = 0
  length (x ∷ xs) = suc (length xs)

  pub length-append : (xs ys : List A) → length (xs ++ ys) ≡ length xs + length ys
  length-append [] ys = omega arith
  length-append (x ∷ xs) ys = omega (arith, length-append xs ys)

  abbrev pub All {κ} : (A → Type κ) → List A → Type κ
  All P [] = Unit
  All P (x ∷ xs) = P x × All P xs

  pub All-append {κ} :
      (Q : A → Type κ) (front back : List A) → All Q front → All Q back → All Q (front ++ back)
  All-append Q [] back u w = w
  All-append Q (a ∷ front) back u w = (u.0, All-append Q front back u.1 w)

  pub All-front {κ} : (Q : A → Type κ) (front back : List A) → All Q (front ++ back) → All Q front
  All-front Q [] back h = tt
  All-front Q (a ∷ front) back h = (h.0, All-front Q front back h.1)

  pub All-back {κ} : (Q : A → Type κ) (front back : List A) → All Q (front ++ back) → All Q back
  All-back Q [] back h = h
  All-back Q (a ∷ front) back h = All-back Q front back h.1

  pub All-mono {κ μ} :
      (P : A → Type κ) (Q : A → Type μ) (xs : List A) → ((x : A) → P x → Q x) → All P xs → All Q xs
  All-mono P Q [] f h = tt
  All-mono P Q (x ∷ xs) f h = (f x h.0, All-mono P Q xs f h.1)

  -- The sum of a measure over a list.
  abbrev pub total_of : (A → ℕ) → List A → ℕ
  total_of f [] = 0
  total_of f (x ∷ xs) = f x + total_of f xs

  pub total_of-append :
      (f : A → ℕ) (xs ys : List A) → total_of f (xs ++ ys) ≡ total_of f xs + total_of f ys
  total_of-append f [] ys = omega arith
  total_of-append f (x ∷ xs) ys = omega (arith, total_of-append f xs ys)

module _ {ℓ κ} {A : Type ℓ} {B : Type κ} where
  pub length-map : (xs : List A) (f : A → B) → length (map f xs) ≡ length xs
  length-map [] f = refl
  length-map (x ∷ xs) f = ap suc (length-map xs f)

abbrev pub sum : List ℕ → ℕ
sum [] = 0
sum (x ∷ xs) = x + sum xs

pub sum-append : (xs ys : List ℕ) → sum (xs ++ ys) ≡ sum xs + sum ys
sum-append [] ys = omega arith
sum-append (x ∷ xs) ys = omega (arith, sum-append xs ys)

module _ {ℓ} {A : Type ℓ} where
  unfoldable pub take : ℕ → List A → List A
  take zero l = []
  take (suc n) [] = []
  take (suc n) (a ∷ l) = a ∷ take n l

  unfoldable pub drop : ℕ → List A → List A
  drop zero l = l
  drop (suc n) [] = []
  drop (suc n) (a ∷ l) = drop n l

  pub take-append :
      (front back : List A) (n : ℕ) → take (length front + n) (front ++ back) ≡ front ++ take n back
  unfolding take
  take-append [] back n = ap (λ k. take k back) (omega arith)
  take-append (a ∷ front) back n =
      let e : suc (length front) + n ≡ suc (length front + n) = omega arith in
      rw (e, take-append front back n) refl

  pub drop-append : (front back : List A) → drop (length front) (front ++ back) ≡ back
  unfolding drop
  drop-append [] back = refl
  drop-append (a ∷ front) back = drop-append front back

  pub length-take : (n : ℕ) (l : List A) → length (take n l) ≡ min n (length l)
  unfolding take
  length-take zero l = omega arith
  length-take (suc n) [] = omega arith
  length-take (suc n) (a ∷ l) = omega (arith, length-take n l)

  pub take-all : (front back : List A) → take (length front) (front ++ back) ≡ front
  unfolding take
  take-all [] back = refl
  take-all (a ∷ front) back = ap (λ l. a ∷ l) (take-all front back)

  pub take-short :
      (front back : List A) (n : ℕ) → n ≤ length front → take n (front ++ back) ≡ take n front
  unfolding take
  take-short front back zero h = refl
  take-short [] back (suc n) h = absurd (omega arith)
  take-short (a ∷ front) back (suc n) h = ap (λ l. a ∷ l) (take-short front back n (omega arith))

  pub take-whole : (l : List A) → take (length l) l ≡ l
  unfolding take
  take-whole [] = refl
  take-whole (a ∷ l) = ap (λ k. a ∷ k) (take-whole l)

  pub take-take : (m n : ℕ) (l : List A) → take m (take n l) ≡ take (min m n) l
  unfolding take
  take-take zero n l = let e : min 0 n ≡ 0 = omega arith in rw e refl
  take-take (suc m) zero l = let e : min (suc m) 0 ≡ 0 = omega arith in rw e refl
  take-take (suc m) (suc n) [] =
      let e : min (suc m) (suc n) ≡ suc (min m n) = omega arith in rw e refl
  take-take (suc m) (suc n) (a ∷ l) =
      let e : min (suc m) (suc n) ≡ suc (min m n) = omega arith in
      rw e (ap (λ k. a ∷ k) (take-take m n l))

  pub append-empty : (front back : List A) → length back ≡ 0 → front ++ back ≡ front
  append-empty [] [] h = refl
  append-empty [] (a ∷ back) h = absurd (omega arith)
  append-empty (a ∷ front) back h = ap (λ k. a ∷ k) (append-empty front back h)

  pub take-drop : (n : ℕ) (l : List A) → l ≡ take n l ++ drop n l
  unfolding take drop
  take-drop zero l = refl
  take-drop (suc n) [] = refl
  take-drop (suc n) (a ∷ l) = ap (λ k. a ∷ k) (take-drop n l)

  pub same_front : (xs ys ps qs : List A) → xs ++ ps ≡ ys ++ qs → length xs ≡ length ys → xs ≡ ys
  same_front xs ys ps qs e len =
      sym (take-all xs ps)
      ∙ ap (take (length xs)) e
      ∙ ap (λ n. take n (ys ++ qs)) len
      ∙ take-all ys qs
