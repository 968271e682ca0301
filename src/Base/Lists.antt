-- ===== src/Base/Lists.antt =====
-- Lists measured by native numbers, with the source's `some`, `every`, `filter` and `find`.
use Prim.Native.Nat.{ℕ, zero, suc, ◌+◌, ◌≤◌}
use mathlib.Core.Path.{◌≡◌, refl, ap}
use mathlib.Core.Logic.{inl, inr}
use mathlib.Core.Bool.{Bool, true, false, ◌&&◌, ◌||◌}
use mathlib.Core.Option.{Option, none, some}
use mathlib.Core.List.{List, [], ◌∷◌, ◌++◌, map, Memᴰ}
use native.Mathlib.Omega.{arith}
use cairn_memory.Base.Tests.{if◌then◌else◌, Bool-cases}

module _ {ℓ} {A : Type ℓ} where
  abbrev pub length : List A → ℕ
  length [] = 0
  length (x ∷ xs) = suc (length xs)

  abbrev pub drop : ℕ → List A → List A
  drop zero xs = xs
  drop (suc n) [] = []
  drop (suc n) (x ∷ xs) = drop n xs

  abbrev pub take : ℕ → List A → List A
  take zero xs = []
  take (suc n) [] = []
  take (suc n) (x ∷ xs) = x ∷ take n xs

  abbrev pub head? : List A → Option A
  head? [] = none
  head? (x ∷ xs) = some x

  -- `Array.prototype.some`, `every`, `filter` and `find`.
  abbrev pub any : (A → Bool) → List A → Bool
  any p [] = false
  any p (x ∷ xs) = p x || any p xs

  abbrev pub all : (A → Bool) → List A → Bool
  all p [] = true
  all p (x ∷ xs) = p x && all p xs

  abbrev pub keep : (A → Bool) → List A → List A
  keep p [] = []
  keep p (x ∷ xs) = let rest = keep p xs in if p x then x ∷ rest else rest

  abbrev pub find : (A → Bool) → List A → Option A
  find p [] = none
  find p (x ∷ xs) = let rest = find p xs in if p x then some x else rest

  abbrev pub flat_map {κ} : {B : Type κ} → (A → List B) → List A → List B
  flat_map f [] = []
  flat_map f (x ∷ xs) = f x ++ flat_map f xs

  abbrev pub count_if : (A → Bool) → List A → ℕ
  count_if p [] = 0
  count_if p (x ∷ xs) = let rest = count_if p xs in if p x then suc rest else rest

  abbrev pub All {κ} : (A → Type κ) → List A → Type κ
  All P [] = Unit
  All P (x ∷ xs) = P x × All P xs

module _ {ℓ} {A : Type ℓ} where
  pub length-append : (xs ys : List A) → length (xs ++ ys) ≡ length xs + length ys
  length-append [] ys = omega arith
  length-append (x ∷ xs) ys = omega (arith, length-append xs ys)

  pub length-keep-le : (p : A → Bool) (xs : List A) → length (keep p xs) ≤ length xs
  length-keep-le p [] = omega arith
  length-keep-le p (x ∷ xs) = ground (arith, length-keep-le p xs)

  pub length-map {κ} : {B : Type κ} (f : A → B) (xs : List A) → length (map f xs) ≡ length xs
  length-map f [] = refl
  length-map f (x ∷ xs) = ap suc (length-map f xs)

  pub any-append : (p : A → Bool) (xs ys : List A) → any p (xs ++ ys) ≡ (any p xs || any p ys)
  any-append p [] ys = refl
  any-append p (x ∷ xs) ys = ground (arith, any-append p xs ys)

  -- A member that passes makes `any` true, and `any` shows one.
  pub any_of_mem : (p : A → Bool) (xs : List A) (a : A) → Memᴰ a xs → p a ≡ true → any p xs ≡ true
  any_of_mem p [] a m h = elim m [ ]
  any_of_mem p (x ∷ xs) a (Memᴰ.head e) h = ground (arith, ap p e)
  any_of_mem p (x ∷ xs) a (Memᴰ.tail m) h = ground (arith, any_of_mem p xs a m h)

  pub mem_of_any :
      (p : A → Bool) (xs : List A) → any p xs ≡ true → (a : A) × Memᴰ a xs × (p a ≡ true)
  mem_of_any p [] h = absurd (cc)
  mem_of_any p (x ∷ xs) h = elim (Bool-cases (p x)) [
    | inl e ↦ (x, Memᴰ.head refl, e)
    | inr e ↦ let (a, m, k) = mem_of_any p xs (ground (arith, e)) in (a, Memᴰ.tail m, k)
  ]

  pub all_mem : (p : A → Bool) (xs : List A) (a : A) → all p xs ≡ true → Memᴰ a xs → p a ≡ true
  all_mem p [] a h m = elim m [ ]
  all_mem p (x ∷ xs) a h (Memᴰ.head e) = ground (arith, ap p e)
  all_mem p (x ∷ xs) a h (Memᴰ.tail m) = all_mem p xs a (ground arith) m

  pub mem-keep : (p : A → Bool) (xs : List A) (a : A) → Memᴰ a xs → p a ≡ true → Memᴰ a (keep p xs)
  mem-keep p [] a m h = elim m [ ]
  mem-keep p (x ∷ xs) a (Memᴰ.head e) h =
      let px : p x ≡ true = ground (arith, ap p e) in rw px (Memᴰ.head e)
  mem-keep p (x ∷ xs) a (Memᴰ.tail m) h = elim (Bool-cases (p x)) [
    | inl e ↦ rw e (Memᴰ.tail (mem-keep p xs a m h))
    | inr e ↦ rw e (mem-keep p xs a m h)
  ]

  mem_of_keep_head :
      (p : A → Bool) (x a : A) (xs rest : List A)
      → p x ≡ true
      → (Memᴰ a rest → Memᴰ a xs × (p a ≡ true))
      → Memᴰ a (x ∷ rest)
      → Memᴰ a (x ∷ xs) × (p a ≡ true)
  mem_of_keep_head p x a xs rest e ih (Memᴰ.head q) = (Memᴰ.head q, ground (arith, ap p q))
  mem_of_keep_head p x a xs rest e ih (Memᴰ.tail n) = let (m, k) = ih n in (Memᴰ.tail m, k)

  pub mem_of_keep :
      (p : A → Bool) (xs : List A) (a : A) → Memᴰ a (keep p xs) → Memᴰ a xs × (p a ≡ true)
  mem_of_keep p [] a m = elim m [ ]
  mem_of_keep p (x ∷ xs) a m = elim (Bool-cases (p x)) [
    | inl e ↦ mem_of_keep_head p x a xs (keep p xs) e (mem_of_keep p xs a) (rw e at m)
    | inr e ↦ let (n, k) = mem_of_keep p xs a (rw e at m) in (Memᴰ.tail n, k)
  ]

  pub find-eq-some :
      (p : A → Bool) (xs : List A) {a : A} → find p xs ≡ some a → Memᴰ a xs × (p a ≡ true)
  find-eq-some p [] h = absurd (cc)
  find-eq-some p (x ∷ xs) {a} h = elim (Bool-cases (p x)) [
    | inl e ↦ let same : a ≡ x = ground (arith, e) in (Memᴰ.head same, rw same e)
    | inr e ↦ let (m, q) = find-eq-some p xs (rw e at h) in (Memᴰ.tail m, q)
  ]

  pub find-eq-none :
      (p : A → Bool) (xs : List A) (a : A) → find p xs ≡ none → Memᴰ a xs → p a ≡ false
  find-eq-none p [] a h m = elim m [ ]
  find-eq-none p (x ∷ xs) a h (Memᴰ.head e) = ground (arith, ap p e)
  find-eq-none p (x ∷ xs) a h (Memᴰ.tail m) = find-eq-none p xs a (ground arith) m

  pub mem_of_head : (xs : List A) {a : A} → head? xs ≡ some a → Memᴰ a xs
  mem_of_head [] h = absurd (cc)
  mem_of_head (x ∷ xs) h = Memᴰ.head (ground arith)

  pub any-keep : (p : A → Bool) (xs : List A) → any p (keep p xs) ≡ any p xs
  any-keep p [] = refl
  any-keep p (x ∷ xs) = ground (arith, any-keep p xs)

  pub any_of_head : (p : A → Bool) (xs : List A) → head? xs ≡ none → any p xs ≡ false
  any_of_head p [] h = refl
  any_of_head p (x ∷ xs) h = absurd (cc)

  pub any-keep_other : (p q : A → Bool) (xs : List A) → any p (keep q xs) ≡ any (λ x. q x && p x) xs
  any-keep_other p q [] = refl
  any-keep_other p q (x ∷ xs) = ground (arith, any-keep_other p q xs)
