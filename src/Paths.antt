-- ===== src/Paths.antt =====
-- What the source uses of Node's posix `path` module, on lists of segments.
use mathlib.Core.List.{reverse}
use cairn_memory.Base.{
  ℕ, ◌≡◌, refl, Bool, false, not, ◌||◌, List, [], ◌∷◌, ◌++◌, ◌==◌, if◌then◌else◌, map, Bool-cases,
  inl, inr,
}
use cairn_memory.Base.Text.{Text, text_eq, codes, text_eq_sound}

-- `text.split(c)`; never empty.
unfoldable pub split_on : ℕ → Text → List Text
split_on c [] = [] ∷ []
split_on c (d ∷ s) = elim (split_on c s) [
  | [] ↦ [] ∷ []
  | part ∷ parts ↦ if d == c then [] ∷ part ∷ parts else (d ∷ part) ∷ parts
]

-- `parts.join(sep)`.
unfoldable pub join_with : Text → List Text → Text
join_with sep [] = []
join_with sep (a ∷ []) = a
join_with sep (a ∷ b ∷ r) = a ++ (sep ++ join_with sep (b ∷ r))

unfoldable pub starts_with_slash : Text → Bool
starts_with_slash [] = false
starts_with_slash (c ∷ s) = c == b'/'

unfoldable pub ends_with_slash : Text → Bool
ends_with_slash [] = false
ends_with_slash (c ∷ []) = c == b'/'
ends_with_slash (c ∷ d ∷ s) = ends_with_slash (d ∷ s)

-- What `..` does to the segments read so far, the last one first.
unfoldable pub go_up : Bool → List Text → List Text
go_up above [] = if above then codes ".." ∷ [] else []
go_up above (top ∷ stack) =
    if text_eq top (codes "..")
    then (if above then codes ".." ∷ top ∷ stack else top ∷ stack)
    else stack

unfoldable pub normal_step : Bool → List Text → Text → List Text
unfolding go_up
normal_step above stack part =
    if text_eq part [] || text_eq part (codes ".")
    then stack
    else if text_eq part (codes "..")
    then go_up above stack
    else part ∷ stack

unfoldable pub normal_from : Bool → List Text → List Text → List Text
unfolding normal_step
normal_from above stack [] = reverse stack
normal_from above stack (part ∷ parts) = normal_from above (normal_step above stack part) parts

-- `normalizeString`: empty and `.` segments are dropped, `..` goes up; `above` is
-- `allowAboveRoot`.
unfoldable pub normal_segments : Bool → Text → List Text
unfolding normal_from split_on
normal_segments above path = normal_from above [] (split_on b'/' path)

-- `posix.normalize`.
unfoldable pub normalize : Text → Text
unfolding normal_segments starts_with_slash ends_with_slash join_with
normalize path =
    let absolute = starts_with_slash path in
    let trailing = ends_with_slash path in
    elim (join_with (codes "/") (normal_segments (not absolute) path)) [
      | [] ↦ if absolute then codes "/" else if trailing then codes "./" else codes "."
      | c ∷ s ↦
          (if absolute then codes "/" else []) ++ ((c ∷ s) ++ (if trailing then codes "/" else []))
    ]

-- `resolve(base, path)` for an absolute base, as the segments of the absolute result.
unfoldable pub resolve_from : Text → Text → List Text
unfolding normal_segments starts_with_slash
resolve_from base path =
    if starts_with_slash path
    then normal_segments false path
    else normal_segments false (base ++ (b'/' ∷ path))

unfoldable pub absolute_path : List Text → Text
unfolding join_with
absolute_path segments = b'/' ∷ join_with (codes "/") segments

-- `relative(from, to)` on resolved paths: up from the first difference, then down.
unfoldable pub relative_segments : List Text → List Text → List Text
relative_segments [] to = to
relative_segments (a ∷ from) [] = map (λ _. codes "..") (a ∷ from)
relative_segments (a ∷ from) (b ∷ to) =
    let same = relative_segments from to in
    if text_eq a b then same else map (λ _. codes "..") (a ∷ from) ++ (b ∷ to)

-- `child === '..' || child.startsWith('../')`.
unfoldable pub climbs : List Text → Bool
climbs [] = false
climbs (a ∷ r) = text_eq a (codes "..")

-- One path's segments begin another's.
abbrev pub IsInside : List Text → List Text → Type 0
IsInside root path = (rest : List Text) × (path ≡ root ++ rest)

-- A relative path that does not climb stays under its root.
pub relative-IsInside :
    (root path : List Text) → climbs (relative_segments root path) ≡ false → IsInside root path
unfolding relative_segments climbs text_eq
relative-IsInside [] path h = (path, refl)
relative-IsInside (a ∷ root) [] h = absurd (cc)
relative-IsInside (a ∷ root) (b ∷ path) h = elim (Bool-cases (text_eq a b)) [
  | inl e ↦
      let (rest, same) = relative-IsInside root path (rw e at h) in (rest, cc (text_eq_sound a b e))
  | inr e ↦ absurd (cc (rw e at h))
]
