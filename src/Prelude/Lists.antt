-- ===== src/Prelude/Lists.antt =====
-- Lists measured by native numbers, Boolean searches, and predicates over all elements.
use Prim.Native.Nat.{ℕ, zero, suc, ◌+◌}
use mathlib.Core.Path.{◌≡◌, refl, sym, subst}
use mathlib.Core.Bool.{Bool, true, false, ◌&&◌}
use mathlib.Core.List.{List, [], ◌∷◌, ◌++◌, Memᴰ}
use mathlib.Core.List.Memᴰ.{head, tail}
use mathlib.Core.Option.{Option, none, some}
use native.Mathlib.Omega.{arith}
use osm_device_adapter.Prelude.Tests.{if◌then◌else◌}

module _ {ℓ} {A : Type ℓ} where
  abbrev pub length : List A → ℕ
  length [] = 0
  length (x ∷ xs) = suc (length xs)

  abbrev pub take : ℕ → List A → List A
  take zero xs = []
  take (suc n) [] = []
  take (suc n) (x ∷ xs) = x ∷ take n xs

  abbrev pub drop : ℕ → List A → List A
  drop zero xs = xs
  drop (suc n) [] = []
  drop (suc n) (x ∷ xs) = drop n xs

  abbrev pub get_elem? : List A → ℕ → Option A
  get_elem? [] i = none
  get_elem? (x ∷ xs) zero = some x
  get_elem? (x ∷ xs) (suc i) = get_elem? xs i

  -- The elements that pass a test.
  abbrev pub filter : (A → Bool) → List A → List A
  filter p [] = []
  filter p (x ∷ xs) = let rest = filter p xs in if p x then x ∷ rest else rest

  -- The first element that passes a test.
  abbrev pub find? : (A → Bool) → List A → Option A
  find? p [] = none
  find? p (x ∷ xs) = if p x then some x else find? p xs

  -- Whether every element passes a test.
  abbrev pub all : (A → Bool) → List A → Bool
  all p [] = true
  all p (x ∷ xs) = p x && all p xs

  pub length-append : (xs ys : List A) → length (xs ++ ys) ≡ length xs + length ys
  length-append [] ys = omega arith
  length-append (x ∷ xs) ys = omega (arith, length-append xs ys)

  find?-head :
      (p : A → Bool) (y : A) (later : Option A) (x : A) (b : Bool)
      → p y ≡ b
      → (later ≡ some x → p x ≡ true)
      → (if b then some y else later) ≡ some x
      → p x ≡ true
  find?-head p y later x true t rest e = let same : y ≡ x = cc in subst (λ z. p z ≡ true) same t
  find?-head p y later x false t rest e = rest e

  -- What is found passes the test.
  pub find?-passes : (p : A → Bool) (xs : List A) (x : A) → find? p xs ≡ some x → p x ≡ true
  find?-passes p [] x e = cc
  find?-passes p (y ∷ ys) x e = find?-head p y (find? p ys) x (p y) refl (find?-passes p ys x) e

  find?-Mem_head :
      (y : A) (ys : List A) (later : Option A) (x : A) (b : Bool)
      → (later ≡ some x → Memᴰ x ys)
      → (if b then some y else later) ≡ some x
      → Memᴰ x (y ∷ ys)
  find?-Mem_head y ys later x true rest e = let same : y ≡ x = cc in head (sym same)
  find?-Mem_head y ys later x false rest e = tail (rest e)

  -- What is found is in the list.
  pub find?-Mem : (p : A → Bool) (xs : List A) (x : A) → find? p xs ≡ some x → Memᴰ x xs
  find?-Mem p [] x e = cc
  find?-Mem p (y ∷ ys) x e = find?-Mem_head y ys (find? p ys) x (p y) (find?-Mem p ys x) e

  -- What a filter keeps was in the list, and passes the test.
  filter-Mem_head :
      (p : A → Bool) (y : A) (ys : List A) (x : A) (b : Bool)
      → p y ≡ b
      → (Memᴰ x (filter p ys) → Memᴰ x ys × (p x ≡ true))
      → Memᴰ x (if b then y ∷ filter p ys else filter p ys)
      → Memᴰ x (y ∷ ys) × (p x ≡ true)
  filter-Mem_head p y ys x true t rest (head e) = (head e, subst (λ z. p z ≡ true) (sym e) t)
  filter-Mem_head p y ys x true t rest (tail m) = let (m', v) = rest m in (tail m', v)
  filter-Mem_head p y ys x false t rest m = let (m', v) = rest m in (tail m', v)

  pub filter-Mem :
      (p : A → Bool) (xs : List A) (x : A) → Memᴰ x (filter p xs) → Memᴰ x xs × (p x ≡ true)
  filter-Mem p [] x m = elim m [ ]
  filter-Mem p (y ∷ ys) x m = filter-Mem_head p y ys x (p y) refl (filter-Mem p ys x) m

module _ {ℓ κ} {A : Type ℓ} (P : A → Type κ) where
  abbrev pub All : List A → Type κ
  All [] = Unit
  All (x ∷ xs) = P x × All xs

  pub All-Mem : (xs : List A) (x : A) → All xs → Memᴰ x xs → P x
  All-Mem [] x all m = elim m [ ]
  All-Mem (y ∷ ys) x (p, ps) (head e) = subst P (sym e) p
  All-Mem (y ∷ ys) x (p, ps) (tail m) = All-Mem ys x ps m

module _ {ℓ κ} {A : Type ℓ} {P Q : A → Type κ} where
  pub All-imp : (xs : List A) → ((x : A) → P x → Q x) → All P xs → All Q xs
  All-imp [] f all = tt
  All-imp (x ∷ xs) f (p, ps) = (f x p, All-imp xs f ps)

-- Every element is in its list.
pub All-Mem_self {ℓ} : {A : Type ℓ} (xs : List A) → All (λ x. Memᴰ x xs) xs
All-Mem_self [] = tt
All-Mem_self (x ∷ xs) = (head refl, All-imp xs (λ y m. tail m) (All-Mem_self xs))
