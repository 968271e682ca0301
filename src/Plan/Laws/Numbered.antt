-- ===== src/Plan/Laws/Numbered.antt =====
-- The numbers of a plan's steps.
use cairn_memory.Base.{
  ℕ, zero, suc, ◌+◌, ◌≤◌, ◌≡◌, refl, sym, ap, ◌∙◌, subst, inl, inr, Bool, true, false, List, [],
  ◌∷◌, ◌++◌, map, ◌==◌, if◌then◌else◌, any, keep, length, arith, Bool-cases, length-append,
}
use cairn_memory.Base.Text.{Text, text_eq, text_eq_refl, text_eq_sound}
use cairn_memory.Plan.{StepRow, of_plan, at_step, update_where}

-- The numbers of a plan's steps, in the order of insertion.
abbrev pub step_ids : Text → List StepRow → List ℕ
step_ids plan steps = map StepRow.step_id (keep (of_plan plan) steps)

-- `n` numbers from `start` on.
abbrev pub count_from : ℕ → ℕ → List ℕ
count_from start zero = []
count_from start (suc n) = start ∷ count_from (suc start) n

-- The steps of every plan are numbered from one on, without a gap.
abbrev pub IsNumbered : List StepRow → Type 0
IsNumbered steps = (plan : Text) → step_ids plan steps ≡ count_from 1 (length (step_ids plan steps))

-- An update of other columns leaves the numbers.
pub step_ids-update_where :
    (plan : Text) (w : StepRow → Bool) (f : StepRow → StepRow) (steps : List StepRow)
    → ((x : StepRow) → (f x).plan_id ≡ x.plan_id)
    → ((x : StepRow) → (f x).step_id ≡ x.step_id)
    → step_ids plan (update_where w f steps) ≡ step_ids plan steps
step_ids-update_where plan w f [] p n = refl
step_ids-update_where plan w f (x ∷ steps) p n =
    let rest = step_ids-update_where plan w f steps p n in
    elim (Bool-cases (w x)) [
      | inr e ↦ elim (Bool-cases (of_plan plan x)) [
        | inl o ↦ rw (e, o) (ap (λ l. x.step_id ∷ l) rest)
        | inr o ↦ rw (e, o) rest
      ]
      | inl e ↦ elim (Bool-cases (of_plan plan x)) [
        | inl o ↦
            let moved : of_plan plan (f x) ≡ true = ap (λ q. text_eq q plan) (p x) ∙ o in
            rw (e, o, moved, n x) (ap (λ l. x.step_id ∷ l) rest)
        | inr o ↦
            let moved : of_plan plan (f x) ≡ false = ap (λ q. text_eq q plan) (p x) ∙ o in
            rw (e, o, moved) rest
      ]
    ]

count_from-snoc : (start n : ℕ) → count_from start n ++ (start + n) ∷ [] ≡ count_from start (suc n)
count_from-snoc start zero = ap (λ k. k ∷ []) (omega arith)
count_from-snoc start (suc n) =
    ap (λ l. start ∷ l)
      (subst (λ k. count_from (suc start) n ++ k ∷ [] ≡ count_from (suc start) (suc n))
        (omega arith) (count_from-snoc (suc start) n))

step_ids-append :
    (plan : Text) (steps : List StepRow) (row : StepRow)
    → step_ids plan (steps ++ row ∷ [])
      ≡ step_ids plan steps ++ (if of_plan plan row then row.step_id ∷ [] else [])
step_ids-append plan [] row = elim (Bool-cases (of_plan plan row)) [
  | inl o ↦ rw o refl
  | inr o ↦ rw o refl
]
step_ids-append plan (x ∷ steps) row = elim (Bool-cases (of_plan plan x)) [
  | inl o ↦ rw o (ap (λ l. x.step_id ∷ l) (step_ids-append plan steps row))
  | inr o ↦ rw o (step_ids-append plan steps row)
]

snoc_numbered :
    (l : List ℕ)
    → l ≡ count_from 1 (length l)
    → l ++ suc (length l) ∷ [] ≡ count_from 1 (length (l ++ suc (length l) ∷ []))
snoc_numbered l h =
    let grown : length (l ++ suc (length l) ∷ []) ≡ suc (length l) =
      length-append l (suc (length l) ∷ []) ∙ omega arith in
    let next : suc (length l) ≡ 1 + length l = omega arith in
    ap (λ k. k ++ suc (length l) ∷ []) h
    ∙ ap (λ k. count_from 1 (length l) ++ k ∷ []) next
    ∙ count_from-snoc 1 (length l)
    ∙ ap (count_from 1) (sym grown)

append_none : (l : List ℕ) → l ++ [] ≡ l
append_none [] = refl
append_none (x ∷ l) = ap (λ k. x ∷ k) (append_none l)

pub append-IsNumbered :
    (steps : List StepRow) (row : StepRow)
    → IsNumbered steps
    → row.step_id ≡ suc (length (step_ids row.plan_id steps))
    → IsNumbered (steps ++ row ∷ [])
append-IsNumbered steps row numbered next plan = elim (Bool-cases (of_plan plan row)) [
  | inr o ↦
      let same : step_ids plan (steps ++ row ∷ []) ≡ step_ids plan steps =
        step_ids-append plan steps row
        ∙ ap (λ b. step_ids plan steps ++ (if b then row.step_id ∷ [] else [])) o
        ∙ append_none (step_ids plan steps) in
      same ∙ numbered plan ∙ ap (λ l. count_from 1 (length l)) (sym same)
  | inl o ↦
      let mine : row.step_id ≡ suc (length (step_ids plan steps)) =
        next ∙ ap (λ q. suc (length (step_ids q steps))) (text_eq_sound _ _ o) in
      let same : step_ids plan (steps ++ row ∷ [])
          ≡ step_ids plan steps ++ suc (length (step_ids plan steps)) ∷ [] =
        step_ids-append plan steps row
        ∙ ap (λ b. step_ids plan steps ++ (if b then row.step_id ∷ [] else [])) o
        ∙ ap (λ k. step_ids plan steps ++ k ∷ []) mine in
      same
      ∙ snoc_numbered (step_ids plan steps) (numbered plan)
      ∙ ap (λ l. count_from 1 (length l)) (sym same)
]

pub any-at_step :
    (plan : Text) (n : ℕ) (steps : List StepRow)
    → any (at_step plan n) steps ≡ any (λ m. m == n) (step_ids plan steps)
any-at_step plan n [] = refl
any-at_step plan n (x ∷ steps) = elim (Bool-cases (of_plan plan x)) [
  | inl o ↦ rw (o, any-at_step plan n steps) refl
  | inr o ↦ rw (o, any-at_step plan n steps) refl
]

pub count_from_next :
    (start n k : ℕ) → start + n ≤ k → any (λ m. m == k) (count_from start n) ≡ false
count_from_next start zero k h = refl
count_from_next start (suc n) k h =
    ground (arith, count_from_next (suc start) n k (omega (arith, h)))

pub length-append_own :
    (steps : List StepRow) (row : StepRow)
    → length (step_ids row.plan_id (steps ++ row ∷ [])) ≡ suc (length (step_ids row.plan_id steps))
length-append_own steps row =
    ap length (
      step_ids-append row.plan_id steps row
      ∙ ap (λ b. step_ids row.plan_id steps ++ (if b then row.step_id ∷ [] else []))
          (text_eq_refl row.plan_id))
    ∙ length-append (step_ids row.plan_id steps) (row.step_id ∷ [])
    ∙ omega arith

-- A plan without a step of number one has no steps.
pub not_started :
    (plan : Text) (steps : List StepRow)
    → IsNumbered steps
    → any (at_step plan 1) steps ≡ false
    → length (step_ids plan steps) ≡ 0
not_started plan steps numbered free =
    no_first (step_ids plan steps) (numbered plan) (sym (any-at_step plan 1 steps) ∙ free)
  where
    no_first :
        (l : List ℕ) → l ≡ count_from 1 (length l) → any (λ m. m == 1) l ≡ false → length l ≡ 0
    no_first [] h k = refl
    no_first (x ∷ l) h k = let first : x ≡ 1 = cc in absurd (ground (arith, first))
