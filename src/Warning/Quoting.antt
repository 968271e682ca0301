-- ===== src/Warning/Quoting.antt =====
-- `shellArgument` of src/governance/warning-policy.ts against the tokenizer of
-- src/governance/command-match.ts.
use mathlib.Core.List.{append_assoc, append-nil}
use cairn_memory.Base.{
  ℕ, zero, suc, ◌<◌, ◌≤◌, ◌≡◌, refl, ◌∙◌, Bool, true, false, not, ◌&&◌, ◌||◌, Option, List, [], ◌∷◌,
  ◌++◌, map, arith, ◌==◌, all, any, length, head?, Bool-cases, any-append, inl, inr, or-eq-false,
  ==_iff, not_ltb,
}
use cairn_memory.Base.Text.{Text, text_eq}
use cairn_memory.Command.{
  Quote, unquoted, single, Lexer, ok, refused, next, is_unsupported, is_space, is_newline, round,
  scan, tokenize_simple_command, lexer_start, max_shell_command_chars, close, empty_command,
  finish_token,
}
use cairn_memory.Warning.{is_safe_char, escape_quotes, shell_argument, join_args}

abbrev lexer : List Text → Text → Bool → Quote → Lexer
lexer argv token started q = record {
  argv = argv;
  token = token;
  token_started = started;
  quote = q;
}

-- A test of every character below a bound.
module _ (test : ℕ → Bool) where
  passes_to : ℕ → Bool
  passes_to zero = true
  passes_to (suc bound) = passes_to bound && test bound

  passes_to_sound : (bound c : ℕ) → c < bound → passes_to bound ≡ true → test c ≡ true
  unfolding passes_to
  passes_to_sound zero c below h = absurd (omega (arith, below))
  passes_to_sound (suc bound) c below h =
      let earlier = passes_to_sound bound c in ground (arith, earlier)

-- What the tokenizer tests for outside quotes.
abbrev is_special : ℕ → Bool
is_special c = is_newline c || is_space c || c == 39 || c == 34 || c == 92 || is_unsupported c

safe_table : passes_to (λ c. not (is_safe_char c) || not (is_special c)) 128 ≡ true
unfolding passes_to is_safe_char is_space is_unsupported
safe_table = refl

safe-lt : (c : ℕ) → is_safe_char c ≡ true → c < 128
unfolding is_safe_char
safe-lt c h = ground arith

safe_not_special : (c : ℕ) → is_safe_char c ≡ true → is_special c ≡ false
safe_not_special c h = ground (
  arith,
  passes_to_sound (λ c. not (is_safe_char c) || not (is_special c)) 128 c (safe-lt c h) safe_table,
)

scan_next :
    (s : Lexer) (c : ℕ) (cs : Text) {s' : Lexer}
    → round s c (head? cs) ≡ next s'
    → scan s false (c ∷ cs) ≡ scan s' false cs
unfolding scan
scan_next s c cs e = rw (e, scan)

module _ (argv : List Text) where
  round_safe :
      (token : Text) (b : Bool) (c : ℕ) (ahead : Option ℕ)
      → is_safe_char c ≡ true
      → round (lexer argv token b unquoted) c ahead
        ≡ next (lexer argv (token ++ c ∷ []) true unquoted)
  unfolding round
  round_safe token b c ahead h = ground (arith, safe_not_special c h)

  -- A run of safe characters is taken as it stands.
  scan_safe :
      (v rest token : Text)
      → all is_safe_char v ≡ true
      → scan (lexer argv token true unquoted) false (v ++ rest)
        ≡ scan (lexer argv (token ++ v) true unquoted) false rest
  scan_safe [] rest token h = rw append-nil
  scan_safe (c ∷ v) rest token h =
      scan_next _ c (v ++ rest) (round_safe token true c (head? (v ++ rest)) (ground arith))
      ∙ scan_safe v rest (token ++ c ∷ []) (ground arith)
      ∙ rw append_assoc

  round_single_quote :
      (token : Text) (b : Bool) (ahead : Option ℕ)
      → round (lexer argv token b unquoted) 39 ahead ≡ next (lexer argv token true single)
  unfolding round is_space
  round_single_quote token b ahead = refl

  round_close :
      (token : Text) (ahead : Option ℕ)
      → round (lexer argv token true single) 39 ahead ≡ next (lexer argv token true unquoted)
  unfolding round
  round_close token ahead = refl

  -- Inside single quotes everything but a quote and a line end is literal.
  round_literal :
      (token : Text) (c : ℕ) (ahead : Option ℕ)
      → is_newline c ≡ false
      → (c == 39) ≡ false
      → round (lexer argv token true single) c ahead
        ≡ next (lexer argv (token ++ c ∷ []) true single)
  unfolding round
  round_literal token c ahead h k = ground arith

  -- The five characters that stand for a quote.
  scan_quote :
      (rest token : Text)
      → scan (lexer argv token true single) false (39 ∷ 34 ∷ 39 ∷ 34 ∷ 39 ∷ rest)
        ≡ scan (lexer argv (token ++ 39 ∷ []) true single) false rest
  unfolding scan round is_space
  scan_quote rest token = refl

  scan_escaped :
      (v rest token : Text)
      → any is_newline v ≡ false
      → scan (lexer argv token true single) false (escape_quotes v ++ 39 ∷ rest)
        ≡ scan (lexer argv (token ++ v) true unquoted) false rest
  unfolding escape_quotes
  scan_escaped [] rest token h =
      scan_next _ 39 rest (round_close token (head? rest)) ∙ rw append-nil
  scan_escaped (c ∷ v) rest token h =
      let (line, later) = or-eq-false (is_newline c) (any is_newline v) h in
      let ih = scan_escaped v rest (token ++ c ∷ []) later in
      elim (Bool-cases (c == 39)) [
        | inl e ↦
            let same : c ≡ 39 = (==_iff c 39).0 e in
            rw e (
              scan_quote (escape_quotes v ++ 39 ∷ rest) token
              ∙ scan_escaped v rest (token ++ 39 ∷ []) later
              ∙ rw (append_assoc, same))
        | inr e ↦ rw e (
            scan_next _ c (escape_quotes v ++ 39 ∷ rest)
              (round_literal token c (head? (escape_quotes v ++ 39 ∷ rest)) line e)
            ∙ ih
            ∙ rw append_assoc)
      ]

  scan_quoted :
      (v rest : Text)
      → any is_newline v ≡ false
      → scan (lexer argv [] false unquoted) false (39 ∷ (escape_quotes v ++ 39 ∷ rest))
        ≡ scan (lexer argv v true unquoted) false rest
  scan_quoted v rest h = scan_next _ 39 _ (round_single_quote [] false _) ∙ scan_escaped v rest [] h

  -- A quoted argument is read as its value, whatever follows.
  scan_argument :
      (v rest : Text)
      → any is_newline v ≡ false
      → scan (lexer argv [] false unquoted) false (shell_argument v ++ rest)
        ≡ scan (lexer argv v true unquoted) false rest
  unfolding shell_argument text_eq
  scan_argument [] rest h = scan_quoted [] rest h
  scan_argument (c ∷ v) rest h = elim (Bool-cases (all is_safe_char (c ∷ v))) [
    | inl e ↦ rw e (
        scan_next _ c (v ++ rest) (round_safe [] false c (head? (v ++ rest)) (ground arith))
        ∙ scan_safe v rest (c ∷ []) (ground arith))
    | inr e ↦ rw (e, append_assoc) (scan_quoted (c ∷ v) rest h)
  ]

round_space :
    (argv : List Text) (token : Text) (ahead : Option ℕ)
    → round (lexer argv token true unquoted) 32 ahead
      ≡ next (lexer (argv ++ token ∷ []) [] false unquoted)
unfolding round is_space finish_token
round_space argv token ahead = refl

scan_close :
    (argv : List Text) (v : Text) → scan (lexer argv v true unquoted) false [] ≡ ok (argv ++ v ∷ [])
unfolding scan close finish_token
scan_close [] v = refl
scan_close (a ∷ argv) v = refl

abbrev no_newline : Text → Bool
no_newline v = not (any is_newline v)

scan_arguments :
    (argv : List Text) (v : Text) (vs : List Text)
    → all no_newline (v ∷ vs) ≡ true
    → scan (lexer argv [] false unquoted) false (join_args (map shell_argument (v ∷ vs)))
      ≡ ok (argv ++ (v ∷ vs))
unfolding join_args
scan_arguments argv v [] h =
    rw (← append-nil (shell_argument v))
      (scan_argument argv v [] (ground arith) ∙ scan_close argv v)
scan_arguments argv v (w ∷ vs) h =
    scan_argument argv v (32 ∷ join_args (map shell_argument (w ∷ vs))) (ground arith)
    ∙ scan_next _ 32 _ (round_space argv v _)
    ∙ scan_arguments (argv ++ v ∷ []) w vs (ground arith)
    ∙ rw append_assoc

abbrev is_nul : ℕ → Bool
is_nul c = c == 0

nul-escape_quotes : (v : Text) → any is_nul v ≡ false → any is_nul (escape_quotes v) ≡ false
unfolding escape_quotes
nul-escape_quotes [] h = refl
nul-escape_quotes (c ∷ v) h = ground (arith, nul-escape_quotes v)

nul-shell_argument : (v : Text) → any is_nul v ≡ false → any is_nul (shell_argument v) ≡ false
unfolding shell_argument
nul-shell_argument v h =
    ground (arith, nul-escape_quotes v, any-append is_nul (escape_quotes v) (39 ∷ []))

-- A text of an argv: no line end, which the tokenizer refuses, and no NUL.
abbrev pub is_argument : Text → Bool
is_argument v = no_newline v && not (any is_nul v)

nul-join_args :
    (vs : List Text)
    → all is_argument vs ≡ true
    → any is_nul (join_args (map shell_argument vs)) ≡ false
unfolding join_args
nul-join_args [] h = refl
nul-join_args (v ∷ []) h = nul-shell_argument v (ground arith)
nul-join_args (v ∷ w ∷ vs) h = ground (
  arith,
  nul-shell_argument v,
  nul-join_args (w ∷ vs),
  any-append is_nul (shell_argument v) (32 ∷ join_args (map shell_argument (w ∷ vs))),
)

lines_of_arguments : (vs : List Text) → all is_argument vs ≡ true → all no_newline vs ≡ true
lines_of_arguments [] h = refl
lines_of_arguments (v ∷ vs) h = ground (arith, lines_of_arguments vs)

scan_nothing : scan lexer_start false [] ≡ refused empty_command
unfolding scan close finish_token
scan_nothing = refl

joined_not_empty :
    (t : Text) {argv : List Text} → scan lexer_start false t ≡ ok argv → text_eq t [] ≡ false
unfolding text_eq
joined_not_empty [] h = cc scan_nothing
joined_not_empty (c ∷ t) h = refl

-- The quoted arguments of an argv, joined by spaces, are tokenized back to that argv: for a
-- non-empty argv whose texts hold no line end and no NUL, whose joined text is within the
-- tokenizer's length bound.
pub tokenize-join_args :
    (v : Text) (vs : List Text)
    → all is_argument (v ∷ vs) ≡ true
    → length (join_args (map shell_argument (v ∷ vs))) ≤ max_shell_command_chars
    → tokenize_simple_command (join_args (map shell_argument (v ∷ vs))) ≡ ok (v ∷ vs)
unfolding tokenize_simple_command
tokenize-join_args v vs h bound =
    let scanned = scan_arguments [] v vs (lines_of_arguments (v ∷ vs) h) in
    rw (joined_not_empty _ scanned, nul-join_args (v ∷ vs) h, not_ltb _ _ bound) scanned
