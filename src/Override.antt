-- ===== src/Override.antt =====
-- src/governance/override-validator.ts: whether a recorded override holds in a context. A moment is
-- a number of milliseconds since the earliest that the language has; `Date.parse` is a parameter.
pub mod Store
pub mod Laws
use cairn_memory.Base.{
  ℕ, ◌+◌, ◌-◌, ◌*◌, Bool, true, false, not, ◌&&◌, ◌||◌, Option, none, some, List, [], ◌∷◌, ◌++◌,
  map, ltb, leb, ◌==◌, if◌then◌else◌, all, length,
}
use cairn_memory.Base.Text.{Text, codes, text_eq}
use cairn_memory.Command.Match.{exact_argv}
use cairn_memory.Evidence.{Count, nat, other}
use cairn_memory.Evidence.Classify.{max_safe_integer}
use cairn_memory.Evidence.Selection.{distinct, sort_texts}

abbrev pub override_payload_version : ℕ
override_payload_version = 1

-- `GOVERNANCE_BOUNDS.OVERRIDE_MAX_DURATION_MS`, twenty-four hours.
abbrev pub override_max_duration_ms : ℕ
override_max_duration_ms = 24 * 3600000

pub record RuleBinding : Type 0 where
  pub rule_id : Text
  pub revision : Count

pub record Candidate : Type 0 where
  pub audit_id : ℕ
  pub payload_version : ℕ
  pub actor_class : Text
  pub project : Text
  pub session_id : Text
  pub config_sha256 : Text
  pub worktree_digest : Text
  pub rules : List RuleBinding
  pub gate_ids : List Text
  pub issued_at : Text
  pub expires_at : Text

pub record Context : Type 0 where
  pub project : Text
  pub session_id : Text
  pub config_sha256 : Text
  pub worktree_digest : Text
  pub rules : List RuleBinding
  pub gate_ids : List Text
  pub now_ms : ℕ

pub data InvalidReason : Type 0 where
  malformed project_mismatch session_mismatch config_mismatch digest_mismatch : InvalidReason
  rule_revision_mismatch gate_set_mismatch duration_exceeded expired : InvalidReason

pub data Validation : Type 0 where
  valid : (audit_id : ℕ) → Validation
  invalid : InvalidReason → Validation

-- The last two tests, of the lengths and of each member, are `exact_argv`.
unfoldable pub exact_strings : List Text → List Text → Bool
unfolding distinct exact_argv
exact_strings left right =
    let a = sort_texts (distinct left) in
    let b = sort_texts (distinct right) in
    length a == length left && length b == length right && exact_argv a b

abbrev is_lower : ℕ → Bool
is_lower c = leb 97 c && leb c 122

abbrev is_id_char : ℕ → Bool
is_id_char c = is_lower c || (leb 48 c && leb c 57) || c == 95 || c == 45

-- `/^[a-z][a-z0-9_-]{0,63}$/u`.
unfoldable pub is_identifier : Text → Bool
is_identifier [] = false
is_identifier (c ∷ cs) = is_lower c && all is_id_char cs && leb (length cs) 63

unfoldable pub is_positive : Count → Bool
is_positive (nat n) = leb n max_safe_integer && ltb 0 n
is_positive other = false

abbrev pub is_empty {ℓ} : {A : Type ℓ} → List A → Bool
is_empty [] = true
is_empty (a ∷ l) = false

unfoldable pub valid_rule_bindings : List RuleBinding → Bool
unfolding is_identifier is_positive
valid_rule_bindings rules =
    not (is_empty rules)
    && all (λ (rule : RuleBinding). is_identifier rule.rule_id && is_positive rule.revision) rules

unfoldable pub valid_gate_ids : List Text → Bool
unfolding is_identifier
valid_gate_ids gate_ids = not (is_empty gate_ids) && all is_identifier gate_ids

-- `show_number` gives the text of a revision in a template literal.
module _ (parse_date : Text → Option ℕ) (show_number : Count → Text) where
  -- The rule's id, a NUL and the revision's text.
  unfoldable pub rule_key : RuleBinding → Text
  rule_key rule = rule.rule_id ++ (0 ∷ show_number rule.revision)

  unfoldable pub rule_keys : List RuleBinding → List Text
  unfolding rule_key
  rule_keys rules = map rule_key rules

  -- The first test, but for the two dates.
  unfoldable pub well_formed : Candidate → Bool
  unfolding valid_rule_bindings valid_gate_ids
  well_formed candidate =
      leb candidate.audit_id max_safe_integer
      && ltb 0 candidate.audit_id
      && candidate.payload_version == override_payload_version
      && text_eq candidate.actor_class (codes "user-confirmed")
      && valid_rule_bindings candidate.rules
      && valid_gate_ids candidate.gate_ids
      && not (is_empty candidate.project)
      && not (is_empty candidate.session_id)
      && not (is_empty candidate.config_sha256)
      && not (is_empty candidate.worktree_digest)

  unfoldable pub validate_times : ℕ → ℕ → ℕ → ℕ → Validation
  validate_times audit_id issued expires now_ms =
      if leb expires issued || ltb override_max_duration_ms (expires - issued)
      then invalid duration_exceeded
      else if leb expires now_ms
      then invalid expired
      else valid audit_id

  unfoldable pub validate_bindings : Candidate → Context → ℕ → ℕ → Validation
  unfolding exact_strings rule_keys validate_times
  validate_bindings candidate context issued expires =
      if not (text_eq candidate.project context.project)
      then invalid project_mismatch
      else if not (text_eq candidate.session_id context.session_id)
      then invalid session_mismatch
      else if not (text_eq candidate.config_sha256 context.config_sha256)
      then invalid config_mismatch
      else if not (text_eq candidate.worktree_digest context.worktree_digest)
      then invalid digest_mismatch
      else if not (exact_strings (rule_keys candidate.rules) (rule_keys context.rules))
      then invalid rule_revision_mismatch
      else if not (exact_strings candidate.gate_ids context.gate_ids)
      then invalid gate_set_mismatch
      else validate_times candidate.audit_id issued expires context.now_ms

  abbrev dated : Candidate → Context → Option ℕ → Option ℕ → Validation
  dated candidate context (some issued) (some expires) =
      if well_formed candidate
      then validate_bindings candidate context issued expires
      else invalid malformed
  dated candidate context _ _ = invalid malformed

  unfoldable pub validate_governance_override : Candidate → Context → Validation
  unfolding well_formed validate_bindings
  validate_governance_override candidate context =
      dated candidate context (parse_date candidate.issued_at) (parse_date candidate.expires_at)
