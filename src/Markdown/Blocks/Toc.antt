-- ===== src/Markdown/Blocks/Toc.antt =====
-- The table of contents that renderMarkdown returns beside the blocks.
use shadownet_agent.Common.{
  ℕ, zero, suc, ◌≡◌, refl, ap, ap₂, subst, ◌∙◌, sym, arith, Bool, Option, none, some, List, [], ◌∷◌,
  ◌++◌, map, leb, filter,
}
use mathlib.Core.List.{map-append}
use shadownet_agent.Common.Text.{Text, lines_of, Unicode}
use shadownet_agent.Markdown.Href.{Page}
use shadownet_agent.Markdown.Blocks.Slug.{Seen}
use shadownet_agent.Markdown.Blocks.{
  Block, head, TocItem, Round, round, code_round, heading_round, plain_round, marked_round,
  table_round, para_round, prepend, render_from, render_markdown,
}

-- The headings among the blocks, by level and anchor.
pub headings : List Block → List (ℕ × Text)
headings [] = []
headings (head level id tokens ∷ bs) = (level, id) ∷ headings bs
headings (b ∷ bs) = headings bs

abbrev pub is_deep : ℕ × Text → Bool
is_deep (level, id) = leb 2 level

abbrev pub entry : TocItem → ℕ × Text
entry i = (i.level, i.id)

headings-append : (bs cs : List Block) → headings (bs ++ cs) ≡ headings bs ++ headings cs
unfolding headings
headings-append [] cs = refl
headings-append (head level id tokens ∷ bs) cs = ap (λ r. (level, id) ∷ r) (headings-append bs cs)
headings-append (b ∷ bs) cs = headings-append bs cs

filter-append :
    (xs ys : List (ℕ × Text)) → filter is_deep (xs ++ ys) ≡ filter is_deep xs ++ filter is_deep ys
filter-append [] ys = refl
filter-append (x ∷ xs) ys = ground (arith, filter-append xs ys)

-- What a round adds to the table is what it adds to the headings below level one.
abbrev Agrees : Round → Type 0
Agrees r = map entry r.toc ≡ filter is_deep (headings r.blocks)

module _ (u : Unicode) (page : Page) (seen : Seen) where
  plain_round-Agrees : (line : Text) (more : List Text) → Agrees (plain_round u page seen line more)
  unfolding plain_round marked_round table_round para_round headings
  plain_round-Agrees line more = ground arith

  round-Agrees : (line : Text) (more : List Text) → Agrees (round u page seen line more)
  unfolding round code_round heading_round headings
  round-Agrees line more = ground (arith, plain_round-Agrees line more)

abbrev AllAgree : Option (List Block × List TocItem) → Type 0
AllAgree none = Unit
AllAgree (some (bs, toc)) = map entry toc ≡ filter is_deep (headings bs)

prepend-AllAgree :
    (r : Round) (o : Option (List Block × List TocItem))
    → Agrees r
    → AllAgree o
    → AllAgree (prepend r o)
prepend-AllAgree r none h k = tt
prepend-AllAgree r (some (bs, toc)) h k =
    map-append entry r.toc toc
    ∙ ap₂ (λ (x y : List (ℕ × Text)). x ++ y) h k
    ∙ sym (
        ap (filter is_deep) (headings-append r.blocks bs)
        ∙ filter-append (headings r.blocks) (headings bs))

module _ (u : Unicode) (page : Page) where
  render_from-AllAgree :
      (f : ℕ) (seen : Seen) (lines : List Text) → AllAgree (render_from u page f seen lines)
  unfolding render_from headings
  render_from-AllAgree zero seen lines = tt
  render_from-AllAgree (suc f) seen [] = refl
  render_from-AllAgree (suc f) seen (line ∷ more) =
      prepend-AllAgree (round u page seen line more) _ (round-Agrees u page seen line more) (
        render_from-AllAgree f (round u page seen line more).seen
          (round u page seen line more).rest)

-- The table of contents that renderMarkdown returns lists the headings among its nodes below level
-- one, all of them, in order, each with its level and its anchor.
pub toc-headings :
    (f : ℕ) (u : Unicode) (page : Page) (md : Text) (bs : List Block) (toc : List TocItem)
    → render_markdown f u page md ≡ some (bs, toc)
    → map entry toc ≡ filter is_deep (headings bs)
unfolding render_markdown
toc-headings f u page md bs toc e =
    subst AllAgree e (render_from-AllAgree u page f [] (lines_of md))
