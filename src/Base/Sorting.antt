-- ===== src/Base/Sorting.antt =====
-- The stable sort of `Array.prototype.sort`, for a comparator given by its strict order.
use mathlib.Core.List.{List, [], ◌∷◌, Memᴰ}
use mathlib.Core.Path.{◌≡◌, refl, ◌∙◌, ap}
use mathlib.Core.Logic.{inl, inr, ◌↔◌}
use mathlib.Core.Bool.{Bool, ◌||◌}
use Prim.Native.Nat.{ℕ, suc, ◌≤◌}
use mathlib.Core.Option.{some}
use native.Mathlib.Omega.{arith}
use cairn_memory.Base.Tests.{if◌then◌else◌, Bool-cases, ltb}
use cairn_memory.Base.Lists.{any, length, head?}

module _ {ℓ} {A : Type ℓ} (before : A → A → Bool) where
  unfoldable pub insert_by : A → List A → List A
  insert_by a [] = a ∷ []
  insert_by a (b ∷ l) = let later = b ∷ insert_by a l in if before b a then later else a ∷ b ∷ l

  unfoldable pub sort_by : List A → List A
  unfolding insert_by
  sort_by [] = []
  sort_by (a ∷ l) = insert_by a (sort_by l)

  any-insert_by : (p : A → Bool) (a : A) (l : List A) → any p (insert_by a l) ≡ (p a || any p l)
  unfolding insert_by
  any-insert_by p a [] = refl
  any-insert_by p a (b ∷ l) = ground (arith, any-insert_by p a l)

  -- Sorting keeps what some element satisfies.
  pub any-sort_by : (p : A → Bool) (l : List A) → any p (sort_by l) ≡ any p l
  unfolding sort_by
  any-sort_by p [] = refl
  any-sort_by p (a ∷ l) = any-insert_by p a (sort_by l) ∙ rw (any-sort_by p l)

  length-insert_by : (a : A) (l : List A) → length (insert_by a l) ≡ suc (length l)
  unfolding insert_by
  length-insert_by a [] = refl
  length-insert_by a (b ∷ l) = ground (arith, length-insert_by a l)

  pub length-sort_by : (l : List A) → length (sort_by l) ≡ length l
  unfolding sort_by
  length-sort_by [] = refl
  length-sort_by (a ∷ l) = length-insert_by a (sort_by l) ∙ rw (length-sort_by l)

  insert_by-mem : (a x : A) (l : List A) → Memᴰ x (a ∷ l) → Memᴰ x (insert_by a l)
  unfolding insert_by
  insert_by-mem a x [] m = m
  insert_by-mem a x (b ∷ l) (Memᴰ.head e) = elim (Bool-cases (before b a)) [
    | inl q ↦ rw q (Memᴰ.tail (insert_by-mem a x l (Memᴰ.head e)))
    | inr q ↦ rw q (Memᴰ.head e)
  ]
  insert_by-mem a x (b ∷ l) (Memᴰ.tail (Memᴰ.head e)) = elim (Bool-cases (before b a)) [
    | inl q ↦ rw q (Memᴰ.head e)
    | inr q ↦ rw q (Memᴰ.tail (Memᴰ.head e))
  ]
  insert_by-mem a x (b ∷ l) (Memᴰ.tail (Memᴰ.tail m)) = elim (Bool-cases (before b a)) [
    | inl q ↦ rw q (Memᴰ.tail (insert_by-mem a x l (Memᴰ.tail m)))
    | inr q ↦ rw q (Memᴰ.tail (Memᴰ.tail m))
  ]

  mem-insert_by_tail :
      (a b x : A) (l rest : List A)
      → (Memᴰ x rest → Memᴰ x (a ∷ l))
      → Memᴰ x (b ∷ rest)
      → Memᴰ x (a ∷ b ∷ l)
  mem-insert_by_tail a b x l rest ih (Memᴰ.head e) = Memᴰ.tail (Memᴰ.head e)
  mem-insert_by_tail a b x l rest ih (Memᴰ.tail m) = swap (ih m)
    where
      swap : Memᴰ x (a ∷ l) → Memᴰ x (a ∷ b ∷ l)
      swap (Memᴰ.head e) = Memᴰ.head e
      swap (Memᴰ.tail n) = Memᴰ.tail (Memᴰ.tail n)

  mem-insert_by : (a x : A) (l : List A) → Memᴰ x (insert_by a l) → Memᴰ x (a ∷ l)
  unfolding insert_by
  mem-insert_by a x [] m = m
  mem-insert_by a x (b ∷ l) m = elim (Bool-cases (before b a)) [
    | inl q ↦ mem-insert_by_tail a b x l (insert_by a l) (mem-insert_by a x l) (rw q at m)
    | inr q ↦ rw q at m
  ]

  mem-cons_map : (a x : A) (l k : List A) → (Memᴰ x l → Memᴰ x k) → Memᴰ x (a ∷ l) → Memᴰ x (a ∷ k)
  mem-cons_map a x l k f (Memᴰ.head e) = Memᴰ.head e
  mem-cons_map a x l k f (Memᴰ.tail m) = Memᴰ.tail (f m)

  -- The sorted list has the same members.
  pub mem-sort_by : (x : A) (l : List A) → Memᴰ x (sort_by l) ↔ Memᴰ x l
  unfolding sort_by
  mem-sort_by x [] = (λ m. m, λ m. m)
  mem-sort_by x (a ∷ l) = (
    λ m. mem-cons_map a x (sort_by l) l (mem-sort_by x l).0 (mem-insert_by a x (sort_by l) m),
    λ m. insert_by-mem a x (sort_by l) (mem-cons_map a x l (sort_by l) (mem-sort_by x l).1 m),
  )

-- Sorting by a number, the greatest first.
module _ {ℓ} {A : Type ℓ} (key : A → ℕ) where
  abbrev pub later_first : A → A → Bool
  later_first a b = ltb (key b) (key a)

  abbrev IsTop : ℕ → List A → Type 0
  IsTop n [] = Unit
  IsTop n (b ∷ l) = (key b ≤ n) × IsTop n l

  IsTop-mono : (m n : ℕ) (l : List A) → m ≤ n → IsTop m l → IsTop n l
  IsTop-mono m n [] h t = tt
  IsTop-mono m n (b ∷ l) h t = (omega arith, IsTop-mono m n l h t.1)

  abbrev IsFalling : List A → Type 0
  IsFalling [] = Unit
  IsFalling (a ∷ l) = IsTop (key a) l × IsFalling l

  IsTop-insert_by :
      (n : ℕ) (a : A) (l : List A) → key a ≤ n → IsTop n l → IsTop n (insert_by later_first a l)
  unfolding insert_by
  IsTop-insert_by n a [] h t = (h, tt)
  IsTop-insert_by n a (b ∷ l) h t = ground (arith, IsTop-insert_by n a l h)

  IsFalling-insert_by : (a : A) (l : List A) → IsFalling l → IsFalling (insert_by later_first a l)
  unfolding insert_by
  IsFalling-insert_by a [] f = (tt, tt)
  IsFalling-insert_by a (b ∷ l) f =
      ground
        (arith, IsFalling-insert_by a l, IsTop-insert_by (key b) a l, IsTop-mono (key b) (key a) l)

  IsFalling-sort_by : (l : List A) → IsFalling (sort_by later_first l)
  unfolding sort_by
  IsFalling-sort_by [] = tt
  IsFalling-sort_by (a ∷ l) = IsFalling-insert_by a (sort_by later_first l) (IsFalling-sort_by l)

  IsTop-mem : (n : ℕ) (x : A) (l : List A) → IsTop n l → Memᴰ x l → key x ≤ n
  IsTop-mem n x [] t m = elim m [ ]
  IsTop-mem n x (b ∷ l) t (Memᴰ.head e) = rw e t.0
  IsTop-mem n x (b ∷ l) t (Memᴰ.tail m) = IsTop-mem n x l t.1 m

  first_of_falling :
      (a x : A) (l : List A) → IsFalling l → head? l ≡ some a → Memᴰ x l → key x ≤ key a
  first_of_falling a x [] f h m = elim m [ ]
  first_of_falling a x (b ∷ l) f h (Memᴰ.head e) =
      let same : a ≡ b = ground arith in omega (arith, ap key e, ap key same)
  first_of_falling a x (b ∷ l) f h (Memᴰ.tail m) =
      let same : a ≡ b = ground arith in omega (arith, IsTop-mem (key b) x l f.0 m, ap key same)

  -- The first of the sorted list has the greatest number.
  pub greatest_first :
      (a x : A) (l : List A) → head? (sort_by later_first l) ≡ some a → Memᴰ x l → key x ≤ key a
  greatest_first a x l h m =
      first_of_falling a x (sort_by later_first l) (IsFalling-sort_by l) h
        ((mem-sort_by later_first x l).1 m)
