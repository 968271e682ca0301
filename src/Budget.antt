-- ===== src/Budget.antt =====
-- src/hooks/shared/warning-budget.ts: how many warnings a turn may be given. The tracker's other
-- fields are not of this file; a field that is undefined counts as zero.
pub mod Laws
use cairn_memory.Base.{
  ℕ, zero, suc, ◌+◌, ◌-◌, ◌*◌, Bool, true, false, not, ◌&&◌, ◌||◌, Option, none, some, List, [],
  ◌∷◌, ◌++◌, ltb, leb, ◌==◌, if◌then◌else◌, or_else, take, length,
}
use cairn_memory.Base.Text.{Text, codes, text_eq}

pub record Tracker : Type 0 where
  pub sequence : Option ℕ
  pub turn_key : Option Text
  pub tokens : Option ℕ
  pub count : Option ℕ

-- `PROACTIVE.MAX_WARNINGS_PER_TURN` and `WARNING_TOKEN_BUDGET_PER_TURN`.
abbrev pub max_warnings_per_turn : ℕ
max_warnings_per_turn = 1

abbrev pub warning_token_budget : ℕ
warning_token_budget = 96

unfoldable pub same_key : Option Text → Text → Bool
same_key none key = false
same_key (some k) key = text_eq k key

abbrev pub reset : Text → Tracker → Tracker
reset key tracker = record tracker { turn_key = some key; tokens = some 0; count = some 0 }

-- `show_number` is the text of a number in a template literal.
module _ (show_number : ℕ → Text) where
  unfoldable pub start_warning_turn : Option Text → Tracker → Tracker
  unfolding same_key
  start_warning_turn explicit tracker =
      let sequence = or_else tracker.sequence 0 + 1 in
      let key = or_else explicit (codes "prompt:" ++ show_number sequence) in
      let counted = record tracker { sequence = some sequence } in
      if same_key tracker.turn_key key then counted else reset key counted

  -- `!turnKey || turnKey.startsWith('uncorrelated:')`.
  unfoldable pub is_uncorrelated : Option Text → Bool
  is_uncorrelated none = true
  is_uncorrelated (some key) = text_eq key [] || text_eq (take 13 key) (codes "uncorrelated:")

  unfoldable pub align_warning_turn : Option Text → Option Text → Tracker → Tracker
  unfolding same_key is_uncorrelated
  align_warning_turn explicit tool_use_id tracker =
      let sequence = or_else tracker.sequence 0 + 1 in
      let key = codes "uncorrelated:" ++ or_else tool_use_id (show_number sequence) in
      let turn = or_else explicit [] in
      if not (text_eq turn [])
      then (if same_key tracker.turn_key turn then tracker else reset turn tracker)
      else if is_uncorrelated tracker.turn_key
      then reset key (record tracker { sequence = some sequence })
      else tracker

  unfoldable pub warning_tokens_remaining : Tracker → ℕ
  warning_tokens_remaining tracker = warning_token_budget - or_else tracker.tokens 0

  unfoldable pub warning_budget_available : Tracker → Bool
  unfolding warning_tokens_remaining
  warning_budget_available tracker =
      ltb (or_else tracker.count 0) max_warnings_per_turn
      && ltb 0 (warning_tokens_remaining tracker)

  unfoldable pub record_warning_injection : ℕ → Tracker → Tracker
  record_warning_injection tokens tracker = record tracker {
    tokens = some (or_else tracker.tokens 0 + tokens);
    count = some (or_else tracker.count 0 + 1);
  }

  -- The end of the pitfall hook: a warning that fits what remains is recorded with its tokens.
  unfoldable pub inject : Option ℕ → Tracker → Option ℕ × Tracker
  unfolding record_warning_injection
  inject none tracker = (none, tracker)
  inject (some tokens) tracker = (some tokens, record_warning_injection tokens tracker)

  -- Its start: the turn is aligned, and nothing is given when no budget is left.
  unfoldable pub spend : Option Text → Option Text → Option ℕ → Tracker → Option ℕ × Tracker
  unfolding align_warning_turn warning_budget_available inject
  spend explicit tool_use_id warning tracker =
      let aligned = align_warning_turn explicit tool_use_id tracker in
      if not (warning_budget_available aligned) then (none, aligned) else inject warning aligned
