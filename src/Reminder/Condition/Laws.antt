-- ===== src/Reminder/Condition/Laws.antt =====
-- What a composed condition means: its atoms from left to right.
use cairn_memory.Base.{
  ℕ, ◌-◌, ◌≡◌, refl, sym, ap, ◌∙◌, Bool, true, false, not, ◌&&◌, ◌||◌, Option, none, some, List, [],
  ◌∷◌, ◌++◌, all, take, ◌==◌, if◌then◌else◌, ◌>>=◌, arith, and-eq-true,
}
use cairn_memory.Base.Text.{Text, codes, text_eq}
use cairn_memory.Validation.{is_space, trim, trim_start, trim_end}
use cairn_memory.Reminder.Condition.{
  ConditionContext, upper, eval_atom, space_run, keyword_at, separator_at, split_parts,
}

abbrev pub is_keyword : Text → Bool
is_keyword text = text_eq (upper text) (codes "AND") || text_eq (upper text) (codes "OR")

-- An atom as one writes it between operators: not empty, without white space, and no operator.
abbrev pub is_plain : Text → Bool
is_plain [] = false
is_plain (c ∷ cs) = all (λ d. not (is_space d)) (c ∷ cs) && not (is_keyword (c ∷ cs))

abbrev pub operator_text : Bool → Text
operator_text true = codes " AND "
operator_text false = codes " OR "

-- A first atom and what follows it, each with its operator; true is AND.
abbrev pub render : Text → List (Bool × Text) → Text
render atom [] = atom
render atom ((conjoin, next) ∷ rest) = atom ++ (operator_text conjoin ++ render next rest)

abbrev pub all_plain : List (Bool × Text) → Bool
all_plain [] = true
all_plain ((conjoin, atom) ∷ rest) = is_plain atom && all_plain rest

-- The operators from left to right, neither before the other.
abbrev pub meaning : (Text → Option ℕ) → ConditionContext → Bool → List (Bool × Text) → Option Bool
meaning to_number ctx value [] = some value
meaning to_number ctx value ((conjoin, atom) ∷ rest) =
    eval_atom to_number ctx atom
    >>= (λ next. meaning to_number ctx (if conjoin then value && next else value || next) rest)

unspaced : Text → Bool
unspaced text = all (λ d. not (is_space d)) text

separator_none : (c : ℕ) (text : Text) → is_space c ≡ false → separator_at (c ∷ text) ≡ none
unfolding separator_at space_run
separator_none c text h = rw h refl

split_none :
    (part : Text) (c : ℕ) (text : Text)
    → separator_at (c ∷ text) ≡ none
    → split_parts part 0 (c ∷ text) ≡ split_parts (part ++ c ∷ []) 0 text
unfolding split_parts
split_none part c text h = rw (split_parts, h) refl

split_some :
    (part : Text) (c : ℕ) (text word : Text) (n : ℕ)
    → separator_at (c ∷ text) ≡ some (word, n)
    → split_parts part 0 (c ∷ text) ≡ part ∷ word ∷ split_parts [] (n - 1) text
unfolding split_parts
split_some part c text word n h = rw (split_parts, h) refl

append_one : (part : Text) (c : ℕ) (cs : Text) → (part ++ c ∷ []) ++ cs ≡ part ++ (c ∷ cs)
append_one [] c cs = refl
append_one (d ∷ part) c cs = ap (λ t. d ∷ t) (append_one part c cs)

append_nothing : (part : Text) → part ++ [] ≡ part
append_nothing [] = refl
append_nothing (d ∷ part) = ap (λ t. d ∷ t) (append_nothing part)

split_atom :
    (atom part text : Text)
    → all (λ d. not (is_space d)) atom ≡ true
    → split_parts part 0 (atom ++ text) ≡ split_parts (part ++ atom) 0 text
split_atom [] part text h = ap (λ p. split_parts p 0 text) (sym (append_nothing part))
split_atom (c ∷ cs) part text h =
    let (here, later) = and-eq-true (not (is_space c)) (all (λ d. not (is_space d)) cs) h in
    split_none part c (cs ++ text) (separator_none c (cs ++ text) (ground arith))
    ∙ (split_atom cs (part ++ c ∷ []) text later
        ∙ ap (λ p. split_parts p 0 text) (append_one part c cs))

abbrev pub operator_word : Bool → Text
operator_word true = codes "AND"
operator_word false = codes "OR"

separator_and :
    (c : ℕ) (text : Text)
    → is_space c ≡ false
    → separator_at (operator_text true ++ (c ∷ text)) ≡ some (codes "AND", 5)
unfolding separator_at space_run keyword_at upper text_eq is_space
separator_and c text h = rw h refl

separator_or :
    (c : ℕ) (text : Text)
    → is_space c ≡ false
    → separator_at (operator_text false ++ (c ∷ text)) ≡ some (codes "OR", 4)
unfolding separator_at space_run keyword_at upper text_eq is_space
separator_or c text h = rw h refl

split_operator :
    (conjoin : Bool) (part : Text) (c : ℕ) (text : Text)
    → is_space c ≡ false
    → split_parts part 0 (operator_text conjoin ++ (c ∷ text))
      ≡ part ∷ operator_word conjoin ∷ split_parts [] 0 (c ∷ text)
unfolding split_parts
split_operator true part c text h =
    split_some part 32 (codes "AND " ++ (c ∷ text)) (codes "AND") 5 (separator_and c text h)
split_operator false part c text h =
    split_some part 32 (codes "OR " ++ (c ∷ text)) (codes "OR") 4 (separator_or c text h)

unfoldable pub parts_of : Text → List (Bool × Text) → List Text
parts_of atom [] = atom ∷ []
parts_of atom ((conjoin, next) ∷ rest) = atom ∷ operator_word conjoin ∷ parts_of next rest

head_of_plain : (c : ℕ) (cs : Text) → is_plain (c ∷ cs) ≡ true → is_space c ≡ false
head_of_plain c cs h =
    let (spaceless, other) = and-eq-true _ (not (is_keyword (c ∷ cs))) h in
    let (here, later) = and-eq-true (not (is_space c)) (all (λ d. not (is_space d)) cs) spaceless in
    ground arith

pub spaceless_of_plain :
    (atom : Text) → is_plain atom ≡ true → all (λ d. not (is_space d)) atom ≡ true
spaceless_of_plain [] h = refl
spaceless_of_plain (c ∷ cs) h = (and-eq-true _ (not (is_keyword (c ∷ cs))) h).0

pub split_render :
    (atom : Text) (rest : List (Bool × Text))
    → is_plain atom ≡ true
    → all_plain rest ≡ true
    → split_parts [] 0 (render atom rest) ≡ parts_of atom rest
unfolding split_parts parts_of
split_render atom [] p q =
    ap (λ t. split_parts [] 0 t) (sym (append_nothing atom))
    ∙ split_atom atom [] [] (spaceless_of_plain atom p)
split_render atom ((conjoin, []) ∷ rest) p q = absurd (cc)
split_render atom ((conjoin, c ∷ cs) ∷ []) p q =
    let (here, later) = and-eq-true (is_plain (c ∷ cs)) true q in
    split_atom atom [] _ (spaceless_of_plain atom p)
    ∙ (split_operator conjoin atom c cs (head_of_plain c cs here)
        ∙ ap (λ l. atom ∷ operator_word conjoin ∷ l) (split_render (c ∷ cs) [] here refl))
split_render atom ((conjoin, c ∷ cs) ∷ (more, next) ∷ rest) p q =
    let (here, later) = and-eq-true (is_plain (c ∷ cs)) (all_plain ((more, next) ∷ rest)) q in
    split_atom atom [] _ (spaceless_of_plain atom p)
    ∙ (split_operator conjoin atom c _ (head_of_plain c cs here)
        ∙ ap (λ l. atom ∷ operator_word conjoin ∷ l)
            (split_render (c ∷ cs) ((more, next) ∷ rest) here later))

trim_end_same : (t : Text) → all (λ d. not (is_space d)) t ≡ true → trim_end t ≡ t
unfolding trim_end
trim_end_same [] h = refl
trim_end_same (c ∷ cs) h =
    let (here, later) = and-eq-true (not (is_space c)) (all (λ d. not (is_space d)) cs) h in
    let spaceless : is_space c ≡ false = ground arith in
    rw (trim_end, spaceless) (ap (λ t. c ∷ t) (trim_end_same cs later))

pub trim_same : (t : Text) → all (λ d. not (is_space d)) t ≡ true → trim t ≡ t
unfolding trim trim_start
trim_same [] h = trim_end_same [] h
trim_same (c ∷ cs) h =
    let (here, later) = and-eq-true (not (is_space c)) (all (λ d. not (is_space d)) cs) h in
    let spaceless : is_space c ≡ false = ground arith in
    rw (trim_start, spaceless) (trim_end_same (c ∷ cs) h)

not_space : (d : ℕ) → is_space d ≡ false → (d == 32) ≡ false
unfolding is_space
not_space d h = ground arith

pub no_not :
    (t : Text)
    → all (λ d. not (is_space d)) t ≡ true
    → text_eq (upper (take 4 t)) (codes "NOT ") ≡ false
unfolding upper text_eq
no_not [] h = refl
no_not (a ∷ []) h = ground arith
no_not (a ∷ b ∷ []) h = ground arith
no_not (a ∷ b ∷ c ∷ []) h = ground arith
no_not (a ∷ b ∷ c ∷ d ∷ t) h =
    let h1 = (and-eq-true (not (is_space a)) _ h).1 in
    let h2 = (and-eq-true (not (is_space b)) _ h1).1 in
    let h3 = (and-eq-true (not (is_space c)) _ h2).1 in
    let h4 = (and-eq-true (not (is_space d)) _ h3).0 in
    let other = not_space d (ground arith) in ground arith
