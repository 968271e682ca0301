-- ===== src/Plan/Runs.antt =====
-- src/db/plan-repository.ts: runs of the repository's operations.
use cairn_memory.Base.{ℕ, Option, List, [], ◌∷◌}
use cairn_memory.Base.Text.{Text}
use cairn_memory.Plan.{PlanStore, abandon}
use cairn_memory.Plan.Calls.{CreatePlanInput, create, AddDecisionInput, add_decision, complete}
use cairn_memory.Plan.Steps.{
  UpdateStepInput, AddNoteInput, update_step, add_note, add_step, block_in_progress_steps,
}

-- A call of an operation that writes, with its plan, its arguments, and what a create or a
-- decision takes for its new id.
pub data PlanCall : Type 0 where
  creates : Text → CreatePlanInput → PlanCall
  updates : Text → UpdateStepInput → PlanCall
  decides : Text → Text → AddDecisionInput → PlanCall
  notes : Text → AddNoteInput → PlanCall
  adds : Text → Text → Option (List ℕ) → PlanCall
  completes abandons : Text → PlanCall
  blocks : Text → Text → PlanCall

-- The tables after a call at a time.
unfoldable pub run_call : PlanStore → ℕ → PlanCall → PlanStore
run_call store now (creates id input) = (create now id input store).1
run_call store now (updates plan input) = (update_step now plan input store).1
run_call store now (decides id plan input) = (add_decision now id plan input store).1
run_call store now (notes plan input) = (add_note now plan input store).1
run_call store now (adds plan description depends_on) =
    (add_step now plan description depends_on store).1
run_call store now (completes plan) = (complete now plan store).1
run_call store now (abandons plan) = abandon now plan store
run_call store now (blocks project reason) = (block_in_progress_steps now project reason store).1

abbrev pub empty_store : PlanStore
empty_store = record { plans = []; steps = []; decisions = [] }

unfoldable pub run_calls : PlanStore → List (ℕ × PlanCall) → PlanStore
unfolding run_call
run_calls store [] = store
run_calls store ((now, call) ∷ calls) = run_calls (run_call store now call) calls
