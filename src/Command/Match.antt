-- ===== src/Command/Match.antt =====
-- src/governance/command-match.ts: an observed command against a gate's command and its aliases.
pub mod Laws
use cairn_memory.Base.{
  ℕ, suc, ◌+◌, ◌≡◌, refl, Bool, true, false, not, ◌&&◌, ◌||◌, Option, none, some, List, [], ◌∷◌,
  ◌++◌, arith, ltb, ◌==◌, if◌then◌else◌, any, all, length,
}
use cairn_memory.Base.Text.{Text, codes, text_eq}
use cairn_memory.Paths.{starts_with_slash, resolve_from, absolute_path, relative_segments, climbs}
use cairn_memory.Command.{TokenizeResult, ok, refused, tokenize_simple_command}

abbrev pub max_observed_argv_items : ℕ
max_observed_argv_items = 256

-- A field may be set to `undefined`: a key with no value.
abbrev pub Environment : Type 0
Environment = List (Text × Option Text)

pub record ObservedCommand : Type 0 where
  pub command : Option Text
  pub argv : Option (List Text)
  pub cwd : Text
  pub environment : Option Environment

pub record CommandForm : Type 0 where
  pub argv : List Text
  pub cwd : Text

-- The fields of a `NormalizedGate` that the match reads.
pub record GateCommand : Type 0 where
  pub primary : CommandForm
  pub aliases : List CommandForm
  pub env_names : List Text

pub record MatchContext : Type 0 where
  pub project_root : Text
  pub expected_environment : Option Environment

pub data Mismatch : Type 0 where
  invalid_command argv_mismatch cwd_mismatch env_mismatch : Mismatch

-- `form` is `primary` exactly when `aliasIndex` is null.
pub data MatchResult : Type 0 where
  matched : (alias_index : Option ℕ) → (argv : List Text) → (cwd : Text) → MatchResult
  mismatched : Mismatch → MatchResult

abbrev pub has_nul : Text → Bool
has_nul t = any (λ c. c == 0) t

unfoldable pub observed_argv : ObservedCommand → Option (List Text)
observed_argv observed = elim observed.argv [
  | some argv ↦
      if length argv == 0 || ltb max_observed_argv_items (length argv) || any has_nul argv
      then none
      else some argv
  | none ↦ elim observed.command [
    | none ↦ none
    | some command ↦ elim (tokenize_simple_command command) [
      | ok argv ↦ some argv
      | refused r ↦ none
    ]
  ]
]

-- `left.length === right.length && left.every((item, index) => item === right[index])`.
unfoldable pub exact_argv : List Text → List Text → Bool
exact_argv [] [] = true
exact_argv (a ∷ left) (b ∷ right) = text_eq a b && exact_argv left right
exact_argv _ _ = false

unfoldable pub own_value : Text → Environment → Option (Option Text)
own_value name [] = none
own_value name ((k, v) ∷ r) = let rest = own_value name r in if text_eq name k then some v else rest

unfoldable pub value_eq : Option Text → Option Text → Bool
value_eq none none = true
value_eq (some a) (some b) = text_eq a b
value_eq _ _ = false

-- `hasOwn` on both sides, and the same value.
unfoldable pub same_variable : Option (Option Text) → Option (Option Text) → Bool
unfolding value_eq
same_variable (some a) (some b) = value_eq a b
same_variable _ _ = false

unfoldable pub environment_matches : List Text → Option Environment → Option Environment → Bool
unfolding own_value same_variable
environment_matches [] observed expected = true
environment_matches (n ∷ names) (some o) (some e) =
    all (λ name. same_variable (own_value name o) (own_value name e)) (n ∷ names)
environment_matches (n ∷ names) _ _ = false

unfoldable pub alias_forms : ℕ → List CommandForm → List (Option ℕ × CommandForm)
alias_forms i [] = []
alias_forms i (form ∷ forms) = (some i, form) ∷ alias_forms (i + 1) forms

-- `process_cwd` is `process.cwd()`, which `resolve` starts a relative root from.
module _ (process_cwd : Text) where
  -- The resolved path as its segments; `relative` never gives an absolute posix path.
  unfoldable pub normalized_cwd : Text → Text → Option (List Text)
  normalized_cwd project_root cwd =
      if text_eq cwd [] || has_nul cwd
      then none
      else let root = resolve_from process_cwd project_root in
        let candidate =
          if starts_with_slash cwd
          then resolve_from process_cwd cwd
          else resolve_from (absolute_path root) cwd in
        if climbs (relative_segments root candidate) then none else some candidate

  unfoldable pub same_cwd : Text → List Text → Text → Bool
  unfolding exact_argv
  same_cwd project_root cwd form_cwd = elim (normalized_cwd project_root form_cwd) [
    | none ↦ false
    | some expected ↦ exact_argv expected cwd
  ]

  module _ (gate : GateCommand) (context : MatchContext) (env : Option Environment)
      (argv : List Text) (cwd : List Text) where
    unfoldable pub argv_ok : CommandForm → Bool
    argv_ok form = exact_argv argv form.argv

    unfoldable pub cwd_ok : CommandForm → Bool
    cwd_ok form = same_cwd context.project_root cwd form.cwd

    unfoldable pub env_ok : Bool
    env_ok = environment_matches gate.env_names env context.expected_environment

    -- The loop over the forms, with `sawArgv` and `sawCwd`; `index` is the next form's alias
    -- index.
    unfoldable pub match_forms : List (Option ℕ × CommandForm) → Bool → Bool → MatchResult
    match_forms [] saw_argv saw_cwd =
        if not saw_argv
        then mismatched argv_mismatch
        else if not saw_cwd
        then mismatched cwd_mismatch
        else mismatched env_mismatch
    match_forms ((index, form) ∷ forms) saw_argv saw_cwd =
        let skipped = match_forms forms saw_argv saw_cwd in
        let wrong_cwd = match_forms forms true saw_cwd in
        let wrong_env = match_forms forms true true in
        if not (argv_ok form)
        then skipped
        else if not (cwd_ok form)
        then wrong_cwd
        else if not env_ok
        then wrong_env
        else matched index argv (absolute_path cwd)

  unfoldable pub match_gate_command : ObservedCommand → GateCommand → MatchContext → MatchResult
  match_gate_command observed gate context = elim (observed_argv observed) [
    | none ↦ mismatched invalid_command
    | some argv ↦ elim (normalized_cwd context.project_root observed.cwd) [
      | none ↦ mismatched invalid_command
      | some cwd ↦
          match_forms gate context observed.environment argv cwd
            ((none, gate.primary) ∷ alias_forms 0 gate.aliases) false false
    ]
  ]
