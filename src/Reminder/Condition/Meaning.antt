-- ===== src/Reminder/Condition/Meaning.antt =====
-- The meaning of a composed condition, from its text.
use cairn_memory.Base.{
  ℕ, ◌≤◌, ◌≡◌, refl, ap, ◌∙◌, Bool, true, false, not, ◌&&◌, ◌||◌, Option, none, some, List, [], ◌∷◌,
  length, if◌then◌else◌, ◌>>=◌, arith, and-eq-true, or-eq-false, not_ltb,
}
use cairn_memory.Base.Text.{Text, codes, text_eq}
use cairn_memory.Validation.{is_space, trim}
use cairn_memory.Reminder.Condition.{
  ConditionContext, Fold, upper, eval_atom, eval_part, combine, eval_parts, fold_start,
  evaluate_condition, max_condition_chars,
}
use cairn_memory.Reminder.Condition.Laws.{
  is_keyword, is_plain, render, all_plain, meaning, operator_word, parts_of, split_render,
  spaceless_of_plain, trim_same, no_not,
}

no_keyword : (atom : Text) → is_plain atom ≡ true → is_keyword atom ≡ false
no_keyword [] h = absurd (cc)
no_keyword (c ∷ cs) h =
    let (spaceless, other) = and-eq-true _ (not (is_keyword (c ∷ cs))) h in ground arith

bind_same :
    {A B : Type 0} (o : Option A) (f g : A → Option B)
    → ((a : A) → f a ≡ g a)
    → (o >>= f) ≡ (o >>= g)
bind_same none f g h = refl
bind_same (some a) f g h = h a

abbrev state_of : Bool → Bool → Fold
state_of value conjoin = record { result = value; conjoin = conjoin; first = false }

combine_state :
    (conjoin value next : Bool)
    → combine (state_of value conjoin) next
      ≡ state_of (if conjoin then value && next else value || next) conjoin
unfolding combine
combine_state true value next = refl
combine_state false value next = refl

module _ (to_number : Text → Option ℕ) (ctx : ConditionContext) where
  eval_parts_plain :
      (state : Fold) (atom : Text) (parts : List Text)
      → is_plain atom ≡ true
      → eval_parts to_number ctx state (atom ∷ parts) ≡ (
          eval_atom to_number ctx atom
          >>= (λ value. eval_parts to_number ctx (combine state value) parts))
  unfolding eval_parts eval_part
  eval_parts_plain state atom parts h =
      let (not_and, not_or) =
        or-eq-false (text_eq (upper atom) (codes "AND")) (text_eq (upper atom) (codes "OR"))
          (no_keyword atom h) in
      rw
        (
          trim_same atom (spaceless_of_plain atom h),
          not_and,
          not_or,
          no_not atom (spaceless_of_plain atom h),
        )
        refl

  eval_parts_operator :
      (state : Fold) (conjoin : Bool) (parts : List Text)
      → eval_parts to_number ctx state (operator_word conjoin ∷ parts)
        ≡ eval_parts to_number ctx (record state { conjoin = conjoin }) parts
  unfolding eval_parts upper text_eq trim is_space
  eval_parts_operator state true parts = refl
  eval_parts_operator state false parts = refl

  eval_parts_of :
      (value : Bool) (rest : List (Bool × Text)) (conjoin : Bool) (atom : Text)
      → is_plain atom ≡ true
      → all_plain rest ≡ true
      → eval_parts to_number ctx (state_of value conjoin) (parts_of atom rest)
        ≡ meaning to_number ctx value ((conjoin, atom) ∷ rest)
  unfolding parts_of eval_parts
  eval_parts_of value [] conjoin atom p q =
      eval_parts_plain (state_of value conjoin) atom [] p
      ∙ bind_same (eval_atom to_number ctx atom) _ _
          (λ v. ap (λ s. some s.result) (combine_state conjoin value v))
  eval_parts_of value ((next, other) ∷ rest) conjoin atom p q =
      let (here, later) = and-eq-true (is_plain other) (all_plain rest) q in
      eval_parts_plain (state_of value conjoin) atom (operator_word next ∷ parts_of other rest) p
      ∙ bind_same (eval_atom to_number ctx atom) _ _ (λ v.
        eval_parts_operator (combine (state_of value conjoin) v) next (parts_of other rest)
        ∙ (ap (λ s. eval_parts to_number ctx (record s { conjoin = next }) (parts_of other rest))
              (combine_state conjoin value v)
            ∙ eval_parts_of (if conjoin then value && v else value || v) rest next other here
                later))

  eval_parts_start :
      (rest : List (Bool × Text)) (atom : Text)
      → is_plain atom ≡ true
      → all_plain rest ≡ true
      → eval_parts to_number ctx fold_start (parts_of atom rest)
        ≡ (eval_atom to_number ctx atom >>= (λ value. meaning to_number ctx value rest))
  unfolding parts_of eval_parts combine
  eval_parts_start [] atom p q = eval_parts_plain fold_start atom [] p
  eval_parts_start ((next, other) ∷ rest) atom p q =
      let (here, later) = and-eq-true (is_plain other) (all_plain rest) q in
      eval_parts_plain fold_start atom (operator_word next ∷ parts_of other rest) p
      ∙ bind_same (eval_atom to_number ctx atom) _ _ (λ v.
        eval_parts_operator (state_of v false) next (parts_of other rest)
        ∙ eval_parts_of v rest next other here later)

  not_empty :
      (atom : Text) (rest : List (Bool × Text))
      → is_plain atom ≡ true
      → text_eq (render atom rest) [] ≡ false
  unfolding text_eq
  not_empty [] rest p = absurd (cc)
  not_empty (c ∷ cs) [] p = refl
  not_empty (c ∷ cs) (next ∷ rest) p = refl

-- A condition that is written as plain atoms with AND or OR between them, within the bound of its
-- length, means its atoms' values combined from left to right, whichever operators they are; it
-- fails exactly where the evaluation of an atom does.
pub evaluate_condition-render :
    (to_number : Text → Option ℕ) (ctx : ConditionContext) (atom : Text) (rest : List (Bool × Text))
    → is_plain atom ≡ true
    → all_plain rest ≡ true
    → length (render atom rest) ≤ max_condition_chars
    → evaluate_condition to_number (render atom rest) ctx
      ≡ (eval_atom to_number ctx atom >>= (λ value. meaning to_number ctx value rest))
unfolding evaluate_condition
evaluate_condition-render to_number ctx atom rest p q few =
    rw
      (
        not_empty to_number ctx atom rest p,
        not_ltb max_condition_chars (length (render atom rest)) few,
        split_render atom rest p q,
      )
      (eval_parts_start to_number ctx rest atom p q)
