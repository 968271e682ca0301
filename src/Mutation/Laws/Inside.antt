-- ===== src/Mutation/Laws/Inside.antt =====
-- Where the paths lie that an event is taken to affect.
use cairn_memory.Base.{
  ◌≡◌, refl, sym, ap, subst, inl, inr, false, not, ◌||◌, Option, none, some, List, [], ◌∷◌, ◌++◌,
  Memᴰ, any, if◌then◌else◌, Bool-cases, Option-cases, or-eq-false, mem_of_keep, or_else,
}
use cairn_memory.Base.Text.{Text, codes, text_eq, text_eq_sound, includes, text_lt}
use cairn_memory.Base.Sorting.{mem-sort_by}
use cairn_memory.Command.Match.{has_nul}
use cairn_memory.Evidence.Glob.{replace_backslash}
use cairn_memory.Evidence.Selection.{distinct}
use cairn_memory.Paths.{
  starts_with_slash, resolve_from, absolute_path, relative_segments, climbs, split_on, join_with,
  normalize,
}
use cairn_memory.Mutation.{
  ToolEvent, AdaptedEvent, tool, file_changed, adapter_failed, child_segments, normalized_target,
  is_empty_path, has_drive, edit_targets, normalized_targets, is_success, is_complete, scoped_edit,
  edit_class, classify_edit, argv_class, classify_bash, is_edit_tool, classify_tool, changed_class,
  classify_mutation, command_argv, read_only_commands,
}
use cairn_memory.Command.Match.{exact_argv}

-- The resolved directory's segments, then those of the path.
abbrev pub IsBelow : Text → Text → Text → Type 0
IsBelow process_cwd root path =
    (target : Text) × (child : List Text) × (resolve_from process_cwd root ++ child ≡ (
      if starts_with_slash target
      then resolve_from process_cwd target
      else resolve_from (absolute_path (resolve_from process_cwd root)) target))
    × (is_empty_path child ≡ false)
    × (path ≡ normalize (replace_backslash (join_with (codes "/") child)))

relative_child :
    (root path : List Text)
    → climbs (relative_segments root path) ≡ false
    → root ++ relative_segments root path ≡ path
unfolding relative_segments climbs text_eq
relative_child [] path h = refl
relative_child (a ∷ root) [] h = absurd (cc)
relative_child (a ∷ root) (b ∷ path) h = elim (Bool-cases (text_eq a b)) [
  | inl e ↦ rw (e, text_eq_sound a b e) (ap (λ t. b ∷ t) (relative_child root path (rw e at h)))
  | inr e ↦ absurd (cc (rw e at h))
]

normalized_target-IsBelow :
    (process_cwd root target path : Text)
    → normalized_target process_cwd root target ≡ some path
    → IsBelow process_cwd root path
unfolding normalized_target child_segments
normalized_target-IsBelow process_cwd root target path h =
    let slash_path = replace_backslash target in
    let child = child_segments process_cwd root slash_path in
    elim (Bool-cases (text_eq target [] || has_nul target || has_drive target)) [
      | inl e ↦ absurd (cc (rw e at h))
      | inr e ↦ elim (Bool-cases (includes (codes "..") (split_on 47 slash_path))) [
        | inl f ↦ absurd (cc (rw (e, f) at h))
        | inr f ↦ elim (Bool-cases (is_empty_path child || climbs child)) [
          | inl g ↦ absurd (cc (rw (e, f, g) at h))
          | inr g ↦
              let (full, down) = or-eq-false (is_empty_path child) (climbs child) g in
              (
                slash_path,
                child,
                relative_child _ _ down,
                full,
                ap (λ o. or_else o []) (sym (rw (e, f, g) at h)),
              )
        ]
      ]
    ]

mem-distinct : (p : Text) (ts : List Text) → Memᴰ p (distinct ts) → Memᴰ p ts
unfolding distinct
mem-distinct p [] m = m
mem-distinct p (t ∷ ts) (Memᴰ.head e) = Memᴰ.head e
mem-distinct p (t ∷ ts) (Memᴰ.tail m) =
    Memᴰ.tail (mem-distinct p ts (mem_of_keep (λ s. not (text_eq s t)) (distinct ts) p m).0)

module _ (process_cwd root : Text) where
  consed :
      (path p : Text) (paths : List Text)
      → IsBelow process_cwd root path
      → (Memᴰ p paths → IsBelow process_cwd root p)
      → Memᴰ p (path ∷ paths)
      → IsBelow process_cwd root p
  consed path p paths here later (Memᴰ.head e) = subst (IsBelow process_cwd root) (sym e) here
  consed path p paths here later (Memᴰ.tail m) = later m

  targets-IsBelow :
      (targets paths : List Text) (p : Text)
      → normalized_targets process_cwd root targets ≡ some paths
      → Memᴰ p paths
      → IsBelow process_cwd root p
  unfolding normalized_targets
  targets-IsBelow [] paths p h m = elim (subst (λ o. Memᴰ p (or_else o [])) (sym h) m) [ ]
  targets-IsBelow (target ∷ targets) paths p h m =
      elim (Option-cases (normalized_target process_cwd root target)) [
        | inl e ↦ absurd (cc (rw e at h))
        | inr (path, e) ↦ elim (Option-cases (normalized_targets process_cwd root targets)) [
          | inl f ↦ absurd (cc (rw (e, f) at h))
          | inr (rest, f) ↦
              consed path p rest (normalized_target-IsBelow process_cwd root target path e)
                (targets-IsBelow targets rest p f)
                (subst (λ o. Memᴰ p (or_else o [])) (sym (rw (e, f) at h)) m)
        ]
      ]

  changed-IsBelow :
      (target p : Text)
      → Memᴰ p (changed_class (normalized_target process_cwd root target)).affected_paths
      → IsBelow process_cwd root p
  changed-IsBelow target p m = elim (Option-cases (normalized_target process_cwd root target)) [
    | inl e ↦ elim (rw e at m) [ ]
    | inr (path, e) ↦
        consed path p [] (normalized_target-IsBelow process_cwd root target path e)
          (λ n. elim n [ ]) (rw e at m)
  ]

edit-IsBelow :
    (process_cwd : Text) (event : ToolEvent) (p : Text)
    → Memᴰ p (classify_edit process_cwd event).affected_paths
    → IsBelow process_cwd event.cwd p
unfolding classify_edit edit_class scoped_edit
edit-IsBelow process_cwd event p m = elim (Bool-cases (is_success event.outcome)) [
  | inr e ↦ elim (rw e at m) [ ]
  | inl e ↦ elim (Option-cases (edit_targets event.tool_name event.tool_input)) [
    | inl f ↦ elim (rw (e, f) at m) [ ]
    | inr (targets, f) ↦ elim (Option-cases (normalized_targets process_cwd event.cwd targets)) [
      | inl g ↦ elim (rw (e, f, g) at m) [ ]
      | inr (paths, g) ↦
          targets-IsBelow process_cwd event.cwd targets paths p g
            (mem-distinct p paths ((mem-sort_by text_lt p (distinct paths)).0 (rw (e, f, g) at m)))
    ]
  ]
]

argv_no_paths : (o : Option (List Text)) (p : Text) → ¬ Memᴰ p (argv_class o).affected_paths
unfolding argv_class
argv_no_paths none p m = elim m [ ]
argv_no_paths (some argv) p m = elim (Bool-cases (any (exact_argv argv) read_only_commands)) [
  | inl e ↦ elim (rw e at m) [ ]
  | inr e ↦ elim (rw e at m) [ ]
]

tool-IsBelow :
    (process_cwd : Text) (event : ToolEvent) (p : Text)
    → Memᴰ p (classify_tool process_cwd event).affected_paths
    → IsBelow process_cwd event.cwd p
unfolding classify_tool classify_bash
tool-IsBelow process_cwd event p m = elim (Bool-cases (is_complete event.capture_status)) [
  | inr e ↦ elim (rw e at m) [ ]
  | inl e ↦ elim (Bool-cases (is_edit_tool event.tool_name)) [
    | inl f ↦ edit-IsBelow process_cwd event p (rw (e, f) at m)
    | inr f ↦ elim (Bool-cases (text_eq event.tool_name (codes "Bash"))) [
      | inr g ↦ elim (rw (e, f, g) at m) [ ]
      | inl g ↦ elim (Bool-cases (is_success event.outcome)) [
        | inr k ↦ elim (rw (e, f, g, k) at m) [ ]
        | inl k ↦ absurd (argv_no_paths (command_argv event.command) p (rw (e, f, g, k) at m))
      ]
    ]
  ]
]

abbrev pub directory_of : AdaptedEvent → Text
directory_of (tool event) = event.cwd
directory_of (file_changed cwd path) = cwd
directory_of adapter_failed = []

-- Every path that an event is taken to affect is the normal text of a path strictly below the
-- event's directory.
pub classify_mutation-IsBelow :
    (process_cwd : Text) (event : AdaptedEvent) (p : Text)
    → Memᴰ p (classify_mutation process_cwd event).affected_paths
    → IsBelow process_cwd (directory_of event) p
unfolding classify_mutation
classify_mutation-IsBelow process_cwd (tool event) p m = tool-IsBelow process_cwd event p m
classify_mutation-IsBelow process_cwd (file_changed cwd path) p m =
    changed-IsBelow process_cwd cwd path p m
classify_mutation-IsBelow process_cwd adapter_failed p m = elim m [ ]
