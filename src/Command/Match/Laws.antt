-- ===== src/Command/Match/Laws.antt =====
-- What a match of an observed command against a gate means.
use cairn_memory.Base.{
  all_mem, ℕ, ◌≡◌, refl, ◌∙◌, Bool, true, false, not, ◌&&◌, ◌||◌, Option, none, some, List, [], ◌∷◌,
  arith, if◌then◌else◌, any, find, Memᴰ, Bool-cases, Option-cases, inl, inr, ap, find-eq-some, sym,
  and-eq-true,
}
use cairn_memory.Base.Text.{Text, text_eq_sound}
use cairn_memory.Paths.{IsInside, relative-IsInside, resolve_from, absolute_path}
use cairn_memory.Command.Match.{
  ObservedCommand, CommandForm, GateCommand, MatchContext, Environment, Mismatch, MatchResult,
  matched, mismatched, invalid_command, argv_mismatch, cwd_mismatch, env_mismatch, observed_argv,
  exact_argv, normalized_cwd, same_cwd, environment_matches, own_value, value_eq, same_variable,
  argv_ok, cwd_ok, env_ok, match_forms, alias_forms, match_gate_command,
}

pub exact_argv_sound : (xs ys : List Text) → exact_argv xs ys ≡ true → xs ≡ ys
unfolding exact_argv
exact_argv_sound [] [] h = refl
exact_argv_sound [] (y ∷ ys) h = cc
exact_argv_sound (x ∷ xs) [] h = cc
exact_argv_sound (x ∷ xs) (y ∷ ys) h = ground (arith, text_eq_sound x y, exact_argv_sound xs ys)

or_true : (b : Bool) → (b || true) ≡ true
or_true true = refl
or_true false = refl

module _ (process_cwd : Text) where
  -- A directory that is taken lies in the project root.
  pub normalized_cwd-IsInside :
      (root cwd : Text) {path : List Text}
      → normalized_cwd process_cwd root cwd ≡ some path
      → IsInside (resolve_from process_cwd root) path
  unfolding normalized_cwd
  normalized_cwd-IsInside root cwd {path} h =
      relative-IsInside (resolve_from process_cwd root) path (ground arith)

  module _ (gate : GateCommand) (context : MatchContext) (env : Option Environment)
      (argv : List Text) (cwd : List Text) where
    abbrev accepts : Option ℕ × CommandForm → Bool
    accepts (i, form) =
        argv_ok process_cwd gate context env argv cwd form
        && (cwd_ok process_cwd gate context env argv cwd form
            && env_ok process_cwd gate context env argv cwd)

    abbrev reaches_cwd : Option ℕ × CommandForm → Bool
    reaches_cwd (i, form) =
        argv_ok process_cwd gate context env argv cwd form
        && cwd_ok process_cwd gate context env argv cwd form

    abbrev reaches_argv : Option ℕ × CommandForm → Bool
    reaches_argv (i, form) = argv_ok process_cwd gate context env argv cwd form

    -- Which of the three tests no form passes, in their order.
    abbrev first_failure : Bool → Bool → Mismatch
    first_failure some_argv some_cwd =
        if not some_argv then argv_mismatch else if not some_cwd then cwd_mismatch else env_mismatch

    abbrev outcome : Option (Option ℕ × CommandForm) → Mismatch → MatchResult
    outcome (some f) m = matched f.0 argv (absolute_path cwd)
    outcome none m = mismatched m

    -- The first form that passes all three tests, or the first test that none passes.
    abbrev pub specified : List (Option ℕ × CommandForm) → Bool → Bool → MatchResult
    specified forms saw_argv saw_cwd =
        outcome (find accepts forms)
          (first_failure (any reaches_argv forms || saw_argv) (any reaches_cwd forms || saw_cwd))

    match_forms_lem :
        (forms : List (Option ℕ × CommandForm)) (saw_argv saw_cwd : Bool)
        → match_forms process_cwd gate context env argv cwd forms saw_argv saw_cwd
          ≡ specified forms saw_argv saw_cwd
    unfolding match_forms
    match_forms_lem [] saw_argv saw_cwd = ground arith
    match_forms_lem ((i, form) ∷ forms) saw_argv saw_cwd =
        elim (Bool-cases (argv_ok process_cwd gate context env argv cwd form)) [
          | inr a ↦ rw a (match_forms_lem forms saw_argv saw_cwd)
          | inl a ↦ elim (Bool-cases (cwd_ok process_cwd gate context env argv cwd form)) [
            | inr c ↦ rw (a, c) (match_forms_lem forms true saw_cwd ∙ rw or_true)
            | inl c ↦ elim (Bool-cases (env_ok process_cwd gate context env argv cwd)) [
              | inr e ↦ rw (a, c, e) (match_forms_lem forms true true ∙ rw (or_true, or_true))
              | inl e ↦ rw (a, c, e)
            ]
          ]
        ]

or_false : (b : Bool) → (b || false) ≡ b
or_false true = refl
or_false false = refl

abbrev pub forms_of : GateCommand → List (Option ℕ × CommandForm)
forms_of gate = (none, gate.primary) ∷ alias_forms 0 gate.aliases

-- Both environments are there and have the variable, with the same value.
abbrev pub HasSameVariable : Text → Option Environment → Option Environment → Type 0
HasSameVariable name observed expected =
    (o : Environment) × (e : Environment) × (value : Option Text) × (observed ≡ some o)
    × (expected ≡ some e)
    × (own_value name o ≡ some value)
    × (own_value name e ≡ some value)

value_eq_sound : (a b : Option Text) → value_eq a b ≡ true → a ≡ b
unfolding value_eq
value_eq_sound none none h = refl
value_eq_sound none (some b) h = absurd (cc)
value_eq_sound (some a) none h = absurd (cc)
value_eq_sound (some a) (some b) h = ap some (text_eq_sound a b h)

same_variable_sound :
    (a b : Option (Option Text))
    → same_variable a b ≡ true
    → (value : Option Text) × (a ≡ some value) × (b ≡ some value)
unfolding same_variable
same_variable_sound none b h = absurd (cc)
same_variable_sound (some a) none h = absurd (cc)
same_variable_sound (some a) (some b) h = (a, refl, ap some (sym (value_eq_sound a b h)))

environment_sound :
    (names : List Text) (observed expected : Option Environment) (name : Text)
    → environment_matches names observed expected ≡ true
    → Memᴰ name names
    → HasSameVariable name observed expected
unfolding environment_matches
environment_sound [] observed expected name h m = elim m [ ]
environment_sound (n ∷ names) none expected name h m = absurd (cc)
environment_sound (n ∷ names) (some o) none name h m = absurd (cc)
environment_sound (n ∷ names) (some o) (some e) name h m =
    let (value, a, b) =
      same_variable_sound (own_value name o) (own_value name e)
        (all_mem (λ x. same_variable (own_value x o) (own_value x e)) (n ∷ names) name h m) in
    (o, e, value, refl, refl, a, b)

module _ (process_cwd : Text) (observed : ObservedCommand) (gate : GateCommand)
    (context : MatchContext) where
  -- The command that a match was found for: its argv and directory are those of the form, the
  -- environment agrees, and the directory lies in the project root.
  pub record IsExact (i : Option ℕ) (argv : List Text) (path : Text) : Type 0 where
    pub form : CommandForm
    pub cwd : List Text
    pub listed : Memᴰ (i, form) (forms_of gate)
    pub argv_read : observed_argv observed ≡ some argv
    pub cwd_read : normalized_cwd process_cwd context.project_root observed.cwd ≡ some cwd
    pub argv_same : argv ≡ form.argv
    pub cwd_same : normalized_cwd process_cwd context.project_root form.cwd ≡ some cwd
    pub env_same :
        (name : Text)
        → Memᴰ name gate.env_names
        → HasSameVariable name observed.environment context.expected_environment
    pub path_of : path ≡ absolute_path cwd
    pub inside : IsInside (resolve_from process_cwd context.project_root) cwd

  -- The match, for a command whose argv and directory can be read, is the first form that has
  -- the argv, the directory and the environment; where there is none, the reason is the first of
  -- the three tests that no form passes together with those before it.
  pub match_gate_command_lem :
      (argv cwd : List Text)
      → observed_argv observed ≡ some argv
      → normalized_cwd process_cwd context.project_root observed.cwd ≡ some cwd
      → match_gate_command process_cwd observed gate context
        ≡ specified process_cwd gate context observed.environment argv cwd
            (forms_of gate)
            false
            false
  unfolding match_gate_command
  match_gate_command_lem argv cwd a c =
      rw (a, match_gate_command)
        (rw (c, match_gate_command)
          (match_forms_lem process_cwd gate context observed.environment argv cwd (forms_of gate)
            false false))

  same_cwd_sound :
      (cwd : List Text) (form_cwd : Text)
      → same_cwd process_cwd context.project_root cwd form_cwd ≡ true
      → normalized_cwd process_cwd context.project_root form_cwd ≡ some cwd
  unfolding same_cwd
  same_cwd_sound cwd form_cwd h =
      elim (Option-cases (normalized_cwd process_cwd context.project_root form_cwd)) [
        | inl e ↦ absurd (cc (rw (e, same_cwd) at h))
        | inr (p, e) ↦ rw e (ap some (exact_argv_sound p cwd (rw (e, same_cwd) at h)))
      ]

  abbrev accepting : List Text → List Text → Option ℕ × CommandForm → Bool
  accepting a c = accepts process_cwd gate context observed.environment a c

  refused_argv :
      observed_argv observed ≡ none
      → match_gate_command process_cwd observed gate context ≡ mismatched invalid_command
  unfolding match_gate_command
  refused_argv e = rw (e, match_gate_command)

  refused_cwd :
      (argv : List Text)
      → observed_argv observed ≡ some argv
      → normalized_cwd process_cwd context.project_root observed.cwd ≡ none
      → match_gate_command process_cwd observed gate context ≡ mismatched invalid_command
  unfolding match_gate_command
  refused_cwd argv e k = rw (e, match_gate_command) (rw (k, match_gate_command))

  module _ {i : Option ℕ} {argv : List Text} {path : Text} where
    accepted-IsExact :
        (a c : List Text) (form : CommandForm)
        → observed_argv observed ≡ some a
        → normalized_cwd process_cwd context.project_root observed.cwd ≡ some c
        → find (accepting a c) (forms_of gate) ≡ some (i, form)
        → a ≡ argv
        → absolute_path c ≡ path
        → IsExact i argv path
    unfolding argv_ok cwd_ok env_ok
    accepted-IsExact a c form ea ec f same_argv same_path =
        let (m, t) = find-eq-some (accepting a c) (forms_of gate) f in
        let (ta, tr) = and-eq-true _ _ t in
        let (tc, te) = and-eq-true _ _ tr in
        record {
          form = form;
          cwd = c;
          listed = m;
          argv_read = rw (← same_argv) ea;
          cwd_read = ec;
          argv_same = rw (← same_argv) (exact_argv_sound a form.argv ta);
          cwd_same = same_cwd_sound c form.cwd tc;
          env_same = λ name n.
              environment_sound gate.env_names observed.environment context.expected_environment
                name te n;
          path_of = sym same_path;
          inside = normalized_cwd-IsInside process_cwd context.project_root observed.cwd ec;
        }

    -- A command is matched only to a form of the gate whose argv and directory it equals, in a
    -- directory inside the project, with an environment that has every variable that the gate names,
    -- at the expected value.
    pub match_gate_command-IsExact :
        match_gate_command process_cwd observed gate context ≡ matched i argv path
        → IsExact i argv path
    match_gate_command-IsExact h = elim (Option-cases (observed_argv observed)) [
      | inl e ↦ absurd (cc (refused_argv e))
      | inr (a, ea) ↦
          elim (Option-cases (normalized_cwd process_cwd context.project_root observed.cwd)) [
            | inl e ↦ absurd (cc (refused_cwd a ea e))
            | inr (c, ec) ↦
                let equal = sym (match_gate_command_lem a c ea ec) ∙ h in
                elim (Option-cases (find (accepting a c) (forms_of gate))) [
                  | inl n ↦ absurd (cc (rw n at equal))
                  | inr ((j, form), f) ↦
                      let found = rw f at equal in
                      accepted-IsExact a c form ea ec (rw f (ground arith)) (ground arith)
                        (ground arith)
                ]
          ]
    ]
