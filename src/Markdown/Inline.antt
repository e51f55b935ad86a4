-- ===== src/Markdown/Inline.antt =====
-- splitInline of website/src/lib/docs/markdown.tsx: code spans, bold text and links inside a line.
-- The global regular expression takes the leftmost match, and at one place the first alternative
-- that matches; the JSX elements are the constructors of `Token`.
pub mod Lossless
use shadownet_agent.Common.{
  ℕ, zero, suc, Bool, true, false, not, Option, none, some, List, [], ◌∷◌, ◌++◌, ◌==◌, is_empty,
  if◌then◌else◌, span, length, drop, ◌-◌, ◌+◌,
}
use shadownet_agent.Common.Text.{Text, txt, starts_with}

-- A match of the expression with its groups, or the text between two matches.
pub data Token : Type 0 where
  plain code strong : Text → Token
  link : Text → Text → Token

-- The text that is matched: splitInline slices the marks off again.
abbrev pub source : Token → Text
source (plain t) = t
source (code t) = txt "`" ++ (t ++ txt "`")
source (strong t) = txt "**" ++ (t ++ txt "**")
source (link label href) = txt "[" ++ (label ++ (txt "](" ++ (href ++ txt ")")))

-- `[^c]+` and then the text `close`: what the class takes, and what follows `close`.
unfoldable pub until : ℕ → Text → Text → Option (Text × Text)
unfolding span starts_with
until c close s =
    let (body, rest) = span (λ d. not (d == c)) s in
    if is_empty body
    then none
    else if starts_with rest close
    then some (body, drop (length close) rest)
    else none

-- `[^)]+\)` after the label of a link.
abbrev link_target : Text → Option (Text × Text) → Option (Token × Text)
link_target label none = none
link_target label (some (href, rest)) = some (link label href, rest)

abbrev with_token : (Text → Token) → Option (Text × Text) → Option (Token × Text)
with_token mk none = none
with_token mk (some (body, rest)) = some (mk body, rest)

-- /\[[^\]]+\]\([^)]+\)/ after its bracket.
unfoldable pub link_at : Option (Text × Text) → Option (Token × Text)
unfolding until txt
link_at none = none
link_at (some (label, rest)) = link_target label (until b')' (txt ")") rest)

-- The match that begins at the head of the text, and the text after it. The first unit decides
-- which alternative can match.
unfoldable pub token_at : Text → Option (Token × Text)
unfolding until link_at txt starts_with
token_at s =
    if starts_with s (txt "`")
    then with_token code (until b'`' (txt "`") (drop 1 s))
    else if starts_with s (txt "**")
    then with_token strong (until b'*' (txt "**") (drop 2 s))
    else if starts_with s (txt "[")
    then link_at (until b']' (txt "](") (drop 1 s))
    else none

-- `text.slice(last, m.index)`, if there is any.
abbrev flush : Text → List Token → List Token
flush [] tokens = tokens
flush (c ∷ cur) tokens = plain (c ∷ cur) ∷ tokens

-- The loop of splitInline. `cur` is the text since the last match, `skip` what is left of a match.
unfoldable pub tokens_from : Text → ℕ → Text → List Token
unfolding token_at
tokens_from cur skip [] = flush cur []
tokens_from cur (suc n) (c ∷ s) = tokens_from cur n s
tokens_from cur zero (c ∷ s) = elim (token_at (c ∷ s)) [
  | none ↦ tokens_from (cur ++ c ∷ []) 0 s
  | some m ↦ flush cur (m.0 ∷ tokens_from [] (length s - length m.1) s)
]

unfoldable pub tokens : Text → List Token
unfolding tokens_from
tokens text = tokens_from [] 0 text
