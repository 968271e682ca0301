-- ===== src/Mutation.antt =====
-- src/governance/mutation-classifier.ts: what a recorded tool event may have changed. Paths are
-- posix paths, and `process_cwd` is `process.cwd()`. Of a tool's input the texts that the source
-- reads are kept: a field that is no string is absent.
pub mod Laws
use cairn_memory.Base.{
  ℕ, Bool, true, false, not, ◌&&◌, ◌||◌, Option, none, some, List, [], ◌∷◌, ◌++◌, map, leb, ◌==◌,
  if◌then◌else◌, any, is_some, ◌>>=◌,
}
use cairn_memory.Base.Text.{Text, codes, text_eq, includes}
use cairn_memory.Command.{TokenizeResult, ok, refused, tokenize_simple_command}
use cairn_memory.Command.Match.{exact_argv, has_nul}
use cairn_memory.Evidence.{
  CaptureStatus, complete, failed, incomplete, adapter_error, MutationClass, unmutated, scoped,
  unknown,
}
use cairn_memory.Evidence.Glob.{replace_backslash}
use cairn_memory.Evidence.Selection.{distinct, sort_texts}
use cairn_memory.Paths.{
  starts_with_slash, resolve_from, absolute_path, relative_segments, climbs, split_on, join_with,
  normalize,
}
use cairn_memory.ResultParser.{ToolOutcome, success, failure, unknown_failure}

pub record CommandInput : Type 0 where
  pub shell_command : Option Text
  pub tokenized_argv : Option (List Text)

-- `edits` is the `file_path` of each member of an array.
pub record ToolInput : Type 0 where
  pub file_path : Option Text
  pub edits : Option (List (Option Text))

pub record ToolEvent : Type 0 where
  pub cwd : Text
  pub capture_status : CaptureStatus
  pub tool_name : Text
  pub tool_input : ToolInput
  pub command : Option CommandInput
  pub outcome : ToolOutcome

pub data AdaptedEvent : Type 0 where
  tool : ToolEvent → AdaptedEvent
  file_changed : (cwd : Text) → (file_path : Text) → AdaptedEvent
  adapter_failed : AdaptedEvent

pub data ClassReason : Type 0 where
  adapter_error_reason invalid_file_changed_path file_changed_reason : ClassReason
  incomplete_tool_event edit_not_successful edit_target_missing : ClassReason
  edit_target_invalid successful_edit_tool failed_bash : ClassReason
  not_one_simple_command exact_read_only_command not_on_allowlist unknown_tool : ClassReason

pub record MutationClassification : Type 0 where
  pub mutation_class : MutationClass
  pub affected_paths : List Text
  pub allowlist_version : Option ℕ
  pub reason : ClassReason

abbrev pub read_only_command_allowlist_version : ℕ
read_only_command_allowlist_version = 1

-- `READ_ONLY_COMMANDS_V1`.
abbrev pub read_only_commands : List (List Text)
read_only_commands =
    (codes "pwd" ∷ [])
    ∷ (codes "git" ∷ codes "status" ∷ [])
    ∷ (codes "git" ∷ codes "status" ∷ codes "--short" ∷ [])
    ∷ (codes "git" ∷ codes "diff" ∷ codes "--quiet" ∷ [])
    ∷ (codes "git" ∷ codes "diff" ∷ codes "--cached" ∷ codes "--quiet" ∷ [])
    ∷ (codes "git" ∷ codes "rev-parse" ∷ codes "--is-inside-work-tree" ∷ [])
    ∷ (codes "git"
        ∷ codes "status"
        ∷ codes "--porcelain=v2"
        ∷ codes "-z"
        ∷ codes "--untracked-files=all"
        ∷ [])
    ∷ []

abbrev pub argv_of : TokenizeResult → Option (List Text)
argv_of (ok argv) = some argv
argv_of (refused reason) = none

unfoldable pub input_argv : CommandInput → Option (List Text)
input_argv input = elim input.tokenized_argv [
  | some argv ↦ some argv
  | none ↦ input.shell_command >>= (λ shell. argv_of (tokenize_simple_command shell))
]

unfoldable pub command_argv : Option CommandInput → Option (List Text)
unfolding input_argv
command_argv command = command >>= input_argv

-- `/^[A-Za-z]:/`.
unfoldable pub has_drive : Text → Bool
has_drive (c ∷ d ∷ rest) = ((leb 65 c && leb c 90) || (leb 97 c && leb c 122)) && d == b':'
has_drive _ = false

-- The segments of the target below the root; a posix relative path is never absolute.
unfoldable pub child_segments : Text → Text → Text → List Text
child_segments process_cwd root slash_path =
    let canonical_root = resolve_from process_cwd root in
    let absolute =
      if starts_with_slash slash_path
      then resolve_from process_cwd slash_path
      else resolve_from (absolute_path canonical_root) slash_path in
    relative_segments canonical_root absolute

abbrev pub is_empty_path : List Text → Bool
is_empty_path [] = true
is_empty_path (segment ∷ segments) = false

unfoldable pub normalized_target : Text → Text → Text → Option Text
unfolding has_drive child_segments
normalized_target process_cwd root target =
    let slash_path = replace_backslash target in
    let child = child_segments process_cwd root slash_path in
    if text_eq target [] || has_nul target || has_drive target
    then none
    else if includes (codes "..") (split_on b'/' slash_path)
    then none
    else if is_empty_path child || climbs child
    then none
    else some (normalize (replace_backslash (join_with (codes "/") child)))

abbrev pub some_texts : List (Option Text) → List Text
some_texts [] = []
some_texts (none ∷ rest) = some_texts rest
some_texts (some text ∷ rest) = text ∷ some_texts rest

abbrev pub is_multi_edit : Text → Bool
is_multi_edit name = text_eq name (codes "MultiEdit")

abbrev pub edits_of : Option (List (Option Text)) → List Text
edits_of none = []
edits_of (some edits) = some_texts edits

abbrev pub file_of : Option Text → List Text
file_of none = []
file_of (some path) = path ∷ []

unfoldable pub non_empty : List Text → Option (List Text)
non_empty [] = none
non_empty (target ∷ targets) = some (distinct (target ∷ targets))

unfoldable pub edit_targets : Text → ToolInput → Option (List Text)
edit_targets tool_name input =
    if not (is_some input.file_path) && not (is_multi_edit tool_name)
    then none
    else non_empty
        (file_of input.file_path ++ (if is_multi_edit tool_name then edits_of input.edits else []))

abbrev pub unknown_class : ClassReason → Option ℕ → MutationClassification
unknown_class reason version = record {
  mutation_class = unknown;
  affected_paths = [];
  allowlist_version = version;
  reason = reason;
}

abbrev pub scoped_class : ClassReason → List Text → MutationClassification
scoped_class reason paths = record {
  mutation_class = scoped;
  affected_paths = paths;
  allowlist_version = none;
  reason = reason;
}

abbrev pub is_success : ToolOutcome → Bool
is_success success = true
is_success _ = false

abbrev pub is_complete : CaptureStatus → Bool
is_complete complete = true
is_complete _ = false

-- All of the targets, or none where one is invalid.
unfoldable pub normalized_targets : Text → Text → List Text → Option (List Text)
unfolding normalized_target
normalized_targets process_cwd root [] = some []
normalized_targets process_cwd root (target ∷ targets) = do
  path ← normalized_target process_cwd root target
  paths ← normalized_targets process_cwd root targets
  some (path ∷ paths)

unfoldable pub scoped_edit : Option (List Text) → MutationClassification
scoped_edit none = unknown_class edit_target_invalid none
scoped_edit (some paths) = scoped_class successful_edit_tool (sort_texts (distinct paths))

unfoldable pub edit_class : Text → Text → Option (List Text) → MutationClassification
edit_class process_cwd root none = unknown_class edit_target_missing none
edit_class process_cwd root (some targets) =
    scoped_edit (normalized_targets process_cwd root targets)

unfoldable pub classify_edit : Text → ToolEvent → MutationClassification
unfolding edit_targets normalized_targets
classify_edit process_cwd event =
    if not (is_success event.outcome)
    then unknown_class edit_not_successful none
    else edit_class process_cwd event.cwd (edit_targets event.tool_name event.tool_input)

unfoldable pub argv_class : Option (List Text) → MutationClassification
argv_class none = unknown_class not_one_simple_command (some read_only_command_allowlist_version)
argv_class (some argv) =
    if any (exact_argv argv) read_only_commands
    then record {
      mutation_class = unmutated;
      affected_paths = [];
      allowlist_version = some read_only_command_allowlist_version;
      reason = exact_read_only_command;
    }
    else unknown_class not_on_allowlist (some read_only_command_allowlist_version)

unfoldable pub classify_bash : ToolEvent → MutationClassification
unfolding command_argv
classify_bash event =
    if not (is_success event.outcome)
    then unknown_class failed_bash none
    else argv_class (command_argv event.command)

abbrev pub is_edit_tool : Text → Bool
is_edit_tool name =
    text_eq name (codes "Write") || text_eq name (codes "Edit") || is_multi_edit name

unfoldable pub classify_tool : Text → ToolEvent → MutationClassification
unfolding classify_edit classify_bash
classify_tool process_cwd event =
    if not (is_complete event.capture_status)
    then unknown_class incomplete_tool_event none
    else if is_edit_tool event.tool_name
    then classify_edit process_cwd event
    else if text_eq event.tool_name (codes "Bash")
    then classify_bash event
    else unknown_class unknown_tool none

abbrev pub changed_class : Option Text → MutationClassification
changed_class none = unknown_class invalid_file_changed_path none
changed_class (some path) = scoped_class file_changed_reason (path ∷ [])

unfoldable pub classify_mutation : Text → AdaptedEvent → MutationClassification
unfolding classify_tool normalized_target
classify_mutation process_cwd adapter_failed = unknown_class adapter_error_reason none
classify_mutation process_cwd (file_changed cwd file_path) =
    changed_class (normalized_target process_cwd cwd file_path)
classify_mutation process_cwd (tool event) = classify_tool process_cwd event
