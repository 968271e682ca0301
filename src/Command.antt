-- ===== src/Command.antt =====
-- src/governance/command-match.ts: the recogniser of one simple shell command, a loop over the
-- characters with the index advanced past an escaped one (`skip`).
pub mod Match
use cairn_memory.Base.{
  ℕ, suc, ◌+◌, ◌≡◌, refl, Bool, true, false, not, ◌&&◌, ◌||◌, Option, none, some, List, [], ◌∷◌,
  ◌++◌, arith, ltb, leb, ◌==◌, if◌then◌else◌, any, all, length, head?,
}
use cairn_memory.Base.Text.{Text, codes, text_eq}

-- `MAX_SHELL_COMMAND_CHARS` and `MAX_OBSERVED_ARGV_ITEMS` of `GOVERNANCE_BOUNDS`.
abbrev pub max_shell_command_chars : ℕ
max_shell_command_chars = 65536

pub data Quote : Type 0 where
  unquoted single double : Quote

-- The `reason` texts.
pub data Refusal : Type 0 where
  empty_oversized_or_nul newline_control expansion malformed_escape malformed_quoting : Refusal
  empty_command : Refusal
  unsupported_syntax : ℕ → Refusal

pub data TokenizeResult : Type 0 where
  ok : List Text → TokenizeResult
  refused : Refusal → TokenizeResult

-- The loop's variables.
pub record Lexer : Type 0 where
  pub argv : List Text
  pub token : Text
  pub token_started : Bool
  pub quote : Quote

-- What one round of the loop does: return, go on, or go on past the next character too.
pub data Round : Type 0 where
  fail : Refusal → Round
  next : Lexer → Round
  skip : Lexer → Round

-- A member of `UNSUPPORTED_UNQUOTED`.
unfoldable pub is_unsupported : ℕ → Bool
is_unsupported c = any (λ d. c == d) (codes ";|&<>()$`#*?[]{}!~")

-- `/\s/`.
unfoldable pub is_space : ℕ → Bool
is_space c =
    (leb 9 c && leb c 13)
    || c == 32
    || c == 160
    || c == 5760
    || (leb 8192 c && leb c 8202)
    || c == 8232
    || c == 8233
    || c == 8239
    || c == 8287
    || c == 12288
    || c == 65279

abbrev pub is_newline : ℕ → Bool
is_newline c = c == 10 || c == 13

-- What a backslash inside double quotes takes the meaning from: $ ` " \
abbrev pub is_escapable : ℕ → Bool
is_escapable c = c == b'$' || c == 96 || c == 34 || c == 92

unfoldable pub finish_token : Lexer → Lexer
finish_token s =
    if s.token_started
    then record s { argv = s.argv ++ s.token ∷ []; token = []; token_started = false }
    else s

unfoldable pub push_char : Lexer → ℕ → Lexer
push_char s c = record s { token = s.token ++ c ∷ []; token_started = true }

-- The character after the current one, in the escape of a double quotation.
unfoldable pub double_escape : Lexer → Option ℕ → Round
unfolding push_char
double_escape s none = fail malformed_escape
double_escape s (some e) =
    if is_newline e
    then fail malformed_escape
    else if is_escapable e
    then skip (push_char s e)
    else next (push_char s 92)

unfoldable pub plain_escape : Lexer → Option ℕ → Round
unfolding push_char
plain_escape s none = fail malformed_escape
plain_escape s (some e) = if is_newline e then fail malformed_escape else skip (push_char s e)

unfoldable pub round_unquoted : Lexer → ℕ → Option ℕ → Round
unfolding finish_token plain_escape push_char
round_unquoted s c ahead =
    if is_space c
    then next (finish_token s)
    else if c == 39
    then next (record s { quote = single; token_started = true })
    else if c == 34
    then next (record s { quote = double; token_started = true })
    else if c == 92
    then plain_escape s ahead
    else if is_unsupported c
    then fail (unsupported_syntax c)
    else next (push_char s c)

-- Inside single quotes only the token grows; it was started by the quote.
unfoldable pub round_single : Lexer → ℕ → Round
round_single s c =
    if c == 39
    then next (record s { quote = unquoted })
    else next (record s { token = s.token ++ c ∷ [] })

unfoldable pub round_double : Lexer → ℕ → Option ℕ → Round
unfolding double_escape push_char
round_double s c ahead =
    if c == 34
    then next (record s { quote = unquoted })
    else if c == b'$' || c == 96
    then fail expansion
    else if c == 92
    then double_escape s ahead
    else next (push_char s c)

unfoldable pub round_in : Quote → Lexer → ℕ → Option ℕ → Round
unfolding round_unquoted round_single round_double
round_in unquoted s c ahead = round_unquoted s c ahead
round_in single s c ahead = round_single s c
round_in double s c ahead = round_double s c ahead

unfoldable pub round : Lexer → ℕ → Option ℕ → Round
unfolding round_in
round s c ahead = if is_newline c then fail newline_control else round_in s.quote s c ahead

-- After the loop.
unfoldable pub close : Quote → Lexer → TokenizeResult
unfolding finish_token
close unquoted s = elim (finish_token s).argv [ [] ↦ refused empty_command | a ∷ r ↦ ok (a ∷ r) ]
close single s = refused malformed_quoting
close double s = refused malformed_quoting

unfoldable pub scan : Lexer → Bool → Text → TokenizeResult
unfolding close
scan s skipping [] = close s.quote s
scan s true (c ∷ cs) = scan s false cs
scan s false (c ∷ cs) = elim (round s c (head? cs)) [
  | fail r ↦ refused r
  | next s' ↦ scan s' false cs
  | skip s' ↦ scan s' true cs
]

abbrev pub lexer_start : Lexer
lexer_start = record { argv = []; token = []; token_started = false; quote = unquoted }

unfoldable pub tokenize_simple_command : Text → TokenizeResult
unfolding scan
tokenize_simple_command command =
    if text_eq command []
      || ltb max_shell_command_chars (length command)
      || any (λ c. c == 0) command
    then refused empty_oversized_or_nul
    else scan lexer_start false command
