-- ===== src/Markdown/Blocks.antt =====
-- renderMarkdown of website/src/lib/docs/markdown.tsx: the loop over the lines. Each JSX element is
-- a constructor of `Block`; class names and React keys are left out. The index `i` into the lines
-- is the list of the lines from `i` on.
pub mod Slug
pub mod Ids
pub mod Progress
pub mod Stuck
pub mod Termination
pub mod Toc
use shadownet_agent.Common.{
  ℕ, zero, suc, ◌+◌, Bool, true, false, not, ◌&&◌, ◌||◌, Option, none, some, List, [], ◌∷◌, ◌++◌,
  map, ◌==◌, leb, if◌then◌else◌, is_empty, span, drop,
}
use shadownet_agent.Common.Text.{
  Text, txt, trim, trim_end, split, join, starts_with, ends_with, lines_of, Unicode,
}
use shadownet_agent.Markdown.Lines.{
  is_fence, is_blank, heading, is_heading_mark, quote_rest, bullet_rest, ordered_rest, is_some,
  is_rule, is_table_row, is_table_sep, split_cells,
}
use shadownet_agent.Markdown.Inline.{Token, plain, code, strong, link, tokens}
use shadownet_agent.Markdown.Href.{Page, resolve_href}
use Slug.{Seen, next_id}

pub data Align : Type 0 where
  left center right : Align

-- A cell with its alignment; `aligns[idx]` is undefined past the end.
abbrev pub Cell : Type 0
Cell = List Token × Option Align

pub data Block : Type 0 where
  code_block : Option Text → Text → Block
  head : ℕ → Text → List Token → Block
  quote bullets numbered : List (List Token) → Block
  rule : Block
  table : List Cell → List (List Cell) → Block
  para : List Token → Block

pub record TocItem : Type 0 where
  pub id : Text
  pub text : Text
  pub level : ℕ

-- What one round of the loop adds, and the lines that it leaves.
pub record Round : Type 0 where
  pub blocks : List Block
  pub toc : List TocItem
  pub seen : Seen
  pub rest : List Text

module _ (u : Unicode) (page : Page) where
  unfoldable pub resolve_token : Token → Token
  resolve_token (link label href) = link label (resolve_href u page href)
  resolve_token (plain t) = plain t
  resolve_token (code t) = code t
  resolve_token (strong t) = strong t

  -- splitInline
  unfoldable pub inline : Text → List Token
  inline text = map resolve_token (tokens text)

abbrev pub non_empty : Text → Option Text
non_empty [] = none
non_empty (c ∷ s) = some (c ∷ s)

-- The `while` loops over quoted lines and list items: the lines that match, without their marks.
unfoldable pub take_marked : (Text → Option Text) → List Text → List Text × List Text
take_marked mark [] = ([], [])
take_marked mark (l ∷ ls) =
    let more = take_marked mark ls in
    elim (mark l) [ none ↦ ([], l ∷ ls) | some t ↦ (t ∷ more.0, more.1) ]

-- The `while` condition and the `break`s of the paragraph loop.
unfoldable pub is_para_line : Text → Bool
is_para_line l =
    not (is_blank l)
    && not (is_fence l)
    && not (is_heading_mark l)
    && not (is_some (quote_rest l))
    && not (is_some (bullet_rest l))
    && not (is_some (ordered_rest l))

unfoldable pub align_of : Text → Align
align_of c =
    let l = starts_with c (txt ":") in
    let r = ends_with c (txt ":") in if l && r then center else if r then right else left

unfoldable pub with_aligns : List (List Token) → List Align → List Cell
with_aligns [] aligns = []
with_aligns (c ∷ cs) [] = (c, none) ∷ with_aligns cs []
with_aligns (c ∷ cs) (a ∷ aligns) = (c, some a) ∷ with_aligns cs aligns

abbrev next_line : List Text → Text
next_line [] = []
next_line (l ∷ ls) = l

abbrev prepend : Round → Option (List Block × List TocItem) → Option (List Block × List TocItem)
prepend r none = none
prepend r (some (nodes, toc)) = some (r.blocks ++ nodes, r.toc ++ toc)

module _ (u : Unicode) (page : Page) where
  unfoldable pub code_round : Seen → Text → List Text → Round
  code_round seen line more =
      let (body, after) = span (λ l. not (is_fence l)) more in
      record {
        blocks = code_block (non_empty (trim (drop 3 line))) (trim_end (join (10 ∷ []) body)) ∷ [];
        toc = [];
        seen = seen;
        rest = drop 1 after;
      }

  unfoldable pub heading_round : Seen → ℕ → Text → List Text → Round
  heading_round seen level body more =
      let text = trim body in
      let (id, seen') = next_id u seen text in
      record {
        blocks = head level id (inline u page text) ∷ [];
        toc = if leb 2 level then (record { id = id; text = text; level = level }) ∷ [] else [];
        seen = seen';
        rest = more;
      }

  -- A block made of the marked lines at the head of `lines`.
  unfoldable pub marked_round :
      (List (List Token) → Block) → (Text → Option Text) → Seen → List Text → Round
  marked_round mk mark seen lines =
      let (items, after) = take_marked mark lines in
      record { blocks = mk (map (inline u page) items) ∷ []; toc = []; seen = seen; rest = after }

  unfoldable pub table_round : Seen → Text → Text → List Text → Round
  table_round seen header sep more =
      let (rows, after) = span (λ l. not (is_empty l) && is_table_row l) more in
      let aligns = map align_of (split_cells sep) in
      let cells = λ (l : Text). with_aligns (map (inline u page) (split_cells l)) aligns in
      record {
        blocks = table (cells header) (map cells rows) ∷ [];
        toc = [];
        seen = seen;
        rest = after;
      }

  unfoldable pub para_round : Seen → List Text → Round
  para_round seen lines =
      let (body, after) = span is_para_line lines in
      record {
        blocks = para (inline u page (trim (join (txt " ") body))) ∷ [];
        toc = [];
        seen = seen;
        rest = after;
      }

  -- The tests after the heading test, in the order of the source.
  unfoldable pub plain_round : Seen → Text → List Text → Round
  plain_round seen line more =
      if is_blank line
      then record { blocks = []; toc = []; seen = seen; rest = more }
      else if is_some (quote_rest line)
      then marked_round quote quote_rest seen (line ∷ more)
      else if is_some (bullet_rest line)
      then marked_round bullets bullet_rest seen (line ∷ more)
      else if is_some (ordered_rest line)
      then marked_round numbered ordered_rest seen (line ∷ more)
      else if is_rule line
      then record { blocks = rule ∷ []; toc = []; seen = seen; rest = more }
      else if is_table_row line && is_table_sep (next_line more)
      then table_round seen line (next_line more) (drop 1 more)
      else para_round seen (line ∷ more)

  -- One round of the main loop, at a line and those after it.
  unfoldable pub round : Seen → Text → List Text → Round
  round seen line more = if is_fence line then code_round seen line more else elim (heading line) [
    | none ↦ plain_round seen line more
    | some h ↦ heading_round seen h.0 h.1 more
  ]

  -- The main loop on fuel; `none` means that the fuel ran out.
  unfoldable pub render_from : ℕ → Seen → List Text → Option (List Block × List TocItem)
  render_from zero seen lines = none
  render_from (suc f) seen [] = some ([], [])
  render_from (suc f) seen (line ∷ more) =
      let r = round seen line more in prepend r (render_from f r.seen r.rest)

-- `md.replace(/\r\n/g, "\n").split("\n")` is `lines_of md`.
unfoldable pub render_markdown : ℕ → Unicode → Page → Text → Option (List Block × List TocItem)
render_markdown fuel u page md = render_from u page fuel [] (lines_of md)
