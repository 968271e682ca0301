-- ===== src/Warning.antt =====
-- src/governance/warning-policy.ts: when a governance warning is shown, and its shell quoting.
pub mod Quoting
pub mod Emission
use cairn_memory.Base.{
  ℕ, Bool, true, false, not, ◌&&◌, ◌||◌, List, [], ◌∷◌, ◌++◌, leb, ◌==◌, if◌then◌else◌, all, any,
}
use cairn_memory.Base.Text.{Text, codes, text_eq}

-- A character of `[A-Za-z0-9_@%+=:,./-]`.
unfoldable pub is_safe_char : ℕ → Bool
is_safe_char c =
    (leb b'A' c && leb c b'Z')
    || (leb b'a' c && leb c b'z')
    || (leb b'0' c && leb c b'9')
    || any (λ d. c == d) (codes "_@%+=:,./-")

-- `value.replaceAll("'", `'"'"'`)`.
unfoldable pub escape_quotes : Text → Text
escape_quotes [] = []
escape_quotes (c ∷ cs) =
    let rest = escape_quotes cs in if c == 39 then 39 ∷ 34 ∷ 39 ∷ 34 ∷ 39 ∷ rest else c ∷ rest

unfoldable pub shell_argument : Text → Text
unfolding escape_quotes
shell_argument value =
    if not (text_eq value []) && all is_safe_char value
    then value
    else 39 ∷ (escape_quotes value ++ 39 ∷ [])

-- `join(' ')`.
unfoldable pub join_args : List Text → Text
join_args [] = []
join_args (a ∷ []) = a
join_args (a ∷ b ∷ r) = a ++ (32 ∷ join_args (b ∷ r))
