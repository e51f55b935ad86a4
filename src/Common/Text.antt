-- ===== src/Common/Text.antt =====
-- JavaScript strings as lists of code points (strings without lone surrogates), and the string methods that the website calls.
-- Every pattern and separator of the source is ASCII, so cutting by code points or by
-- UTF-16 units is the same. What depends on the Unicode tables (case mapping, normalisation, letter
-- classes) is a parameter.
pub mod Laws
use Prim.Native.Char.{code}
use Prim.Native.Nat.{ℕ, zero, suc, ◌-◌, ◌*◌, ◌/◌, ◌%◌, ◌+◌}
use Prim.Native.String.{String}
use mathlib.Core.Bool.{Bool, true, false, not, ◌&&◌, ◌||◌}
use mathlib.Core.Option.{Option, none, some}
use mathlib.Core.List.{List, [], ◌∷◌, ◌++◌, map, reverse}
use shadownet_agent.Common.Tests.{leb, ◌==◌, if◌then◌else◌}
use shadownet_agent.Common.Lists.{length, take, drop, is_empty, all, any, span}

abbrev pub Text : Type 0
Text = List ℕ

-- A literal of the source.
unfoldable pub txt : String → Text
txt String.[] = []
txt (String.◌∷◌ c s) = code c ∷ txt s

-- `a === b`
unfoldable pub same : Text → Text → Bool
same [] [] = true
same (a ∷ s) (b ∷ t) = a == b && same s t
same _ _ = false

-- `s.startsWith(p)`
unfoldable pub starts_with : Text → Text → Bool
starts_with s [] = true
starts_with [] (p ∷ ps) = false
starts_with (c ∷ s) (p ∷ ps) = c == p && starts_with s ps

-- `s.includes(p)`
unfoldable pub includes : Text → Text → Bool
unfolding starts_with
includes [] p = starts_with [] p
includes (c ∷ s) p = starts_with (c ∷ s) p || includes s p

-- The text before the suffix `p`, if `s` ends with `p`.
unfoldable pub strip_suffix? : Text → Text → Option Text
unfolding same
strip_suffix? p [] = if same [] p then some [] else none
strip_suffix? p (c ∷ s) =
    if same (c ∷ s) p
    then some []
    else elim (strip_suffix? p s) [ none ↦ none | some t ↦ some (c ∷ t) ]

-- `s.endsWith(p)`
unfoldable pub ends_with : Text → Text → Bool
unfolding strip_suffix?
ends_with s p = elim (strip_suffix? p s) [ none ↦ false | some t ↦ true ]

-- `\s` of a regular expression, and what `trim` removes.
unfoldable pub is_space : ℕ → Bool
is_space c =
    (leb 9 c && leb c 13)
    || c == 32
    || c == 160
    || c == 0x1680
    || (leb 0x2000 c && leb c 0x200a)
    || c == 0x2028
    || c == 0x2029
    || c == 0x202f
    || c == 0x205f
    || c == 0x3000
    || c == 0xfeff

-- The characters that `.` of a regular expression does not match.
unfoldable pub is_line_end : ℕ → Bool
is_line_end c = c == 10 || c == 13 || c == 0x2028 || c == 0x2029

unfoldable pub is_digit : ℕ → Bool
is_digit c = leb b'0' c && leb c b'9'

unfoldable pub trim_start : Text → Text
unfolding span is_space
trim_start s = (span is_space s).1

unfoldable pub trim_end : Text → Text
unfolding trim_start
trim_end s = reverse (trim_start (reverse s))

unfoldable pub trim : Text → Text
unfolding trim_end
trim s = trim_end (trim_start s)

-- The loop of `s.split(sep)` for a separator of one character; `cur` is the open part.
unfoldable pub split_from : ℕ → Text → Text → List Text
split_from sep cur [] = cur ∷ []
split_from sep cur (c ∷ s) =
    let closed = split_from sep [] s in
    let longer = split_from sep (cur ++ c ∷ []) s in if c == sep then cur ∷ closed else longer

unfoldable pub split : ℕ → Text → List Text
unfolding split_from
split sep s = split_from sep [] s

-- `parts.join(sep)`
unfoldable pub join : Text → List Text → Text
join sep [] = []
join sep (p ∷ []) = p
join sep (p ∷ q ∷ ps) = p ++ (sep ++ join sep (q ∷ ps))

-- /\.md$/i at the head of what is left.
unfoldable pub is_md : Text → Bool
unfolding same txt
is_md t = same t (txt ".md") || same t (txt ".MD") || same t (txt ".Md") || same t (txt ".mD")

-- `s.replace(/\.md$/i, "")`: less the last three characters, if they are `.md` in either case.
unfoldable pub strip_md : Text → Text
unfolding is_md
strip_md [] = []
strip_md (c ∷ s) = let rest = strip_md s in if is_md (c ∷ s) then [] else c ∷ rest

-- The decimal digits of a number, as `${n}` prints it; the fuel bounds their count.
unfoldable pub decimal_fuel : ℕ → ℕ → Text
decimal_fuel zero n = []
decimal_fuel (suc f) n = elim (leb n 9) [
  | true ↦ (b'0' + n) ∷ []
  | false ↦ decimal_fuel f (n / 10) ++ (b'0' + n % 10) ∷ []
]

unfoldable pub decimal : ℕ → Text
unfolding decimal_fuel
decimal n = decimal_fuel (suc n) n

-- `Number(s)` of a text of decimal digits, exact where the program's doubles are.
unfoldable pub value_from : Text → ℕ → ℕ
value_from [] acc = acc
value_from (d ∷ s) acc = value_from s (acc * 10 + (d - b'0'))

unfoldable pub number : Text → ℕ
unfolding value_from
number s = value_from s 0

-- `s.replace(/\r\n/g, "\n")`, and so `s.split(/\r?\n/)` by a split at the line feeds.
unfoldable pub unix_lines : Text → Text
unix_lines [] = []
unix_lines (c ∷ []) = c ∷ []
unix_lines (c ∷ d ∷ s) =
    let rest = unix_lines (d ∷ s) in if c == 13 && d == 10 then rest else c ∷ rest

unfoldable pub lines_of : Text → List Text
unfolding unix_lines split
lines_of s = split 10 (unix_lines s)

-- What the engine takes from the Unicode tables.
pub record Unicode : Type 0 where
  pub to_lower : Text → Text
  pub nfkd : Text → Text
  pub is_letter_or_number : ℕ → Bool
