-- ===== src/Mutation/Laws.antt =====
-- What the classes of mutations rest on.
pub mod Inside
use cairn_memory.Base.{
  ℕ, ◌≡◌, ◌≢◌, refl, sym, ap, ◌∙◌, ◌↔◌, inl, inr, Bool, true, false, not, ◌&&◌, ◌||◌, Option, none,
  some, List, [], ◌∷◌, ◌++◌, map, Memᴰ, any, keep, if◌then◌else◌, ◌>>=◌, arith, Bool-cases,
  Option-cases, and-eq-true, or-eq-false, mem_of_any, any_of_mem, mem_of_keep, or_else,
}
use cairn_memory.Base.Text.{
  Text, codes, text_eq, text_eq_sound, text_eq_refl, text_eq_iff, includes, text_lt,
}
use cairn_memory.Base.Sorting.{mem-sort_by}
use cairn_memory.Command.Match.{exact_argv, has_nul}
use cairn_memory.Command.Match.Laws.{exact_argv_sound}
use cairn_memory.Evidence.{
  CaptureStatus, complete, failed, incomplete, adapter_error, MutationClass, unmutated, scoped,
  unknown,
}
use cairn_memory.Evidence.Glob.{replace_backslash}
use cairn_memory.Evidence.Selection.{distinct, sort_texts}
use cairn_memory.Paths.{
  starts_with_slash, resolve_from, absolute_path, relative_segments, climbs, split_on, join_with,
  normalize,
}
use cairn_memory.ResultParser.{ToolOutcome, success, failure, unknown_failure}
use cairn_memory.Mutation.{
  CommandInput, ToolInput, ToolEvent, AdaptedEvent, tool, file_changed, adapter_failed,
  MutationClassification, command_argv, read_only_commands, child_segments, normalized_target,
  is_empty_path, has_drive, edit_targets, normalized_targets, is_success, is_complete, scoped_edit,
  edit_class, classify_edit, argv_class, classify_bash, is_edit_tool, is_multi_edit, classify_tool,
  changed_class, classify_mutation,
}

exact_argv_refl : (a : List Text) → exact_argv a a ≡ true
unfolding exact_argv
exact_argv_refl [] = refl
exact_argv_refl (a ∷ left) = rw (text_eq_refl a) (exact_argv_refl left)

-- The only events that are taken to change nothing.
abbrev pub IsReadOnly : AdaptedEvent → Type 0
IsReadOnly (tool event) =
    (argv : List Text) × (event.capture_status ≡ complete)
    × (event.tool_name ≡ codes "Bash")
    × (event.outcome ≡ success)
    × (command_argv event.command ≡ some argv)
    × Memᴰ argv read_only_commands
IsReadOnly (file_changed cwd path) = ⊥
IsReadOnly adapter_failed = ⊥

argv_class_sound :
    (o : Option (List Text))
    → (argv_class o).mutation_class ≡ unmutated
    → (argv : List Text) × (o ≡ some argv) × Memᴰ argv read_only_commands
unfolding argv_class
argv_class_sound none h = absurd (cc)
argv_class_sound (some argv) h = elim (Bool-cases (any (exact_argv argv) read_only_commands)) [
  | inl e ↦
      let (found, m, same) = mem_of_any (exact_argv argv) read_only_commands e in
      (argv, refl, rw (exact_argv_sound argv found same) m)
  | inr e ↦ absurd (cc (rw e at h))
]

argv_class_complete :
    (argv : List Text)
    → Memᴰ argv read_only_commands
    → (argv_class (some argv)).mutation_class ≡ unmutated
unfolding argv_class
argv_class_complete argv m =
    rw (any_of_mem (exact_argv argv) read_only_commands argv m (exact_argv_refl argv)) refl

success_of : (o : ToolOutcome) → is_success o ≡ true → o ≡ success
success_of success h = refl
success_of failure h = absurd (cc)
success_of unknown_failure h = absurd (cc)

complete_of : (s : CaptureStatus) → is_complete s ≡ true → s ≡ complete
complete_of complete h = refl
complete_of failed h = absurd (cc)
complete_of incomplete h = absurd (cc)
complete_of adapter_error h = absurd (cc)

edit_not_unmutated :
    (process_cwd : Text) (event : ToolEvent)
    → (classify_edit process_cwd event).mutation_class ≢ unmutated
unfolding classify_edit edit_class scoped_edit
edit_not_unmutated process_cwd event h = elim (Bool-cases (is_success event.outcome)) [
  | inr e ↦ absurd (cc (rw e at h))
  | inl e ↦ elim (Option-cases (edit_targets event.tool_name event.tool_input)) [
    | inl f ↦ absurd (cc (rw (e, f) at h))
    | inr (targets, f) ↦ elim (Option-cases (normalized_targets process_cwd event.cwd targets)) [
      | inl g ↦ absurd (cc (rw (e, f, g) at h))
      | inr (paths, g) ↦ absurd (cc (rw (e, f, g) at h))
    ]
  ]
]

bash_sound :
    (event : ToolEvent)
    → (classify_bash event).mutation_class ≡ unmutated
    → (argv : List Text) × (event.outcome ≡ success)
      × (command_argv event.command ≡ some argv)
      × Memᴰ argv read_only_commands
unfolding classify_bash
bash_sound event h = elim (Bool-cases (is_success event.outcome)) [
  | inr e ↦ absurd (cc (rw e at h))
  | inl e ↦
      let (argv, same, m) = argv_class_sound (command_argv event.command) (rw e at h) in
      (argv, success_of event.outcome e, same, m)
]

tool_sound :
    (process_cwd : Text) (event : ToolEvent)
    → (classify_tool process_cwd event).mutation_class ≡ unmutated
    → IsReadOnly (tool event)
unfolding classify_tool
tool_sound process_cwd event h = elim (Bool-cases (is_complete event.capture_status)) [
  | inr e ↦ absurd (cc (rw e at h))
  | inl e ↦ elim (Bool-cases (is_edit_tool event.tool_name)) [
    | inl f ↦ absurd (edit_not_unmutated process_cwd event (rw (e, f) at h))
    | inr f ↦ elim (Bool-cases (text_eq event.tool_name (codes "Bash"))) [
      | inr g ↦ absurd (cc (rw (e, f, g) at h))
      | inl g ↦
          let (argv, ok, same, m) = bash_sound event (rw (e, f, g) at h) in
          (
            argv,
            complete_of event.capture_status e,
            text_eq_sound event.tool_name (codes "Bash") g,
            ok,
            same,
            m,
          )
    ]
  ]
]

bash_no_edit : is_edit_tool (codes "Bash") ≡ false
unfolding text_eq
bash_no_edit = refl

tool_complete :
    (process_cwd : Text) (event : ToolEvent)
    → IsReadOnly (tool event)
    → (classify_tool process_cwd event).mutation_class ≡ unmutated
unfolding classify_tool classify_bash
tool_complete process_cwd event (argv, done, bash, ok, same, m) =
    let whole : is_complete event.capture_status ≡ true = ap is_complete done in
    let no_edit : is_edit_tool event.tool_name ≡ false = ap is_edit_tool bash ∙ bash_no_edit in
    let named : text_eq event.tool_name (codes "Bash") ≡ true = (text_eq_iff _ _).1 bash in
    let worked : is_success event.outcome ≡ true = ap is_success ok in
    rw (whole, no_edit, named, worked, same) (argv_class_complete argv m)

changed_not_unmutated : (o : Option Text) → (changed_class o).mutation_class ≢ unmutated
changed_not_unmutated none h = absurd (cc)
changed_not_unmutated (some path) h = absurd (cc)

-- An event is taken to have changed nothing exactly when it is a completely captured, successful
-- Bash call whose argv is one of the allowlisted ones.
pub classify_mutation-unmutated_iff :
    (process_cwd : Text) (event : AdaptedEvent)
    → ((classify_mutation process_cwd event).mutation_class ≡ unmutated) ↔ IsReadOnly event
unfolding classify_mutation
classify_mutation-unmutated_iff process_cwd adapter_failed = (λ h. absurd (cc), λ h. absurd h)
classify_mutation-unmutated_iff process_cwd (file_changed cwd path) =
    (λ h. absurd (changed_not_unmutated (normalized_target process_cwd cwd path) h), λ h. absurd h)
classify_mutation-unmutated_iff process_cwd (tool event) =
    (tool_sound process_cwd event, tool_complete process_cwd event)
