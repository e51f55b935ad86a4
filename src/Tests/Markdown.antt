-- ===== src/Tests/Markdown.antt =====
-- Examples for renderMarkdown and its parts.
use shadownet_agent.Common.{
  ℕ, zero, suc, ◌<◌, ◌≡◌, ◌≢◌, refl, ◌↔◌, arith, Bool, false, Option, none, some, List, [], ◌∷◌,
  ◌++◌, map, length, filter, replicate,
}
use shadownet_agent.Common.Text.{Text, txt, lines_of}
use shadownet_agent.Markdown.Blocks.Termination.{render_markdown_total, render_markdown-hangs}
use shadownet_agent.Markdown.Blocks.{Block, head, para, TocItem, render_markdown}
use shadownet_agent.Markdown.Href.{Page, joined_segments, segments}
use shadownet_agent.Markdown.Inline.Lossless.{written, written-tokens}
use shadownet_agent.Markdown.Inline.{tokens}
use shadownet_agent.Tests.{ascii}

abbrev intro_page : Page
intro_page = record {
  base_slug = txt "guide" ∷ txt "intro" ∷ [];
  base_prefix = some (txt "/fa");
  route = none;
}

-- A heading of level two and a paragraph.
abbrev short_text : Text
short_text = txt "## Set up" ++ (10 ∷ txt "Run it.")

-- A heading that lacks its text.
abbrev empty_heading : Text
empty_heading = txt "# "

render_markdown_total_example :
    (v : List Block × List TocItem) × (render_markdown
        (suc (length (lines_of short_text)))
        ascii
        intro_page
        short_text
      ≡ some v)
unfolding lines_of txt shadownet_agent.Markdown.Blocks.Progress.is_stuck
    shadownet_agent.Markdown.Lines.is_heading_mark shadownet_agent.Markdown.Lines.hashes
    shadownet_agent.Markdown.Lines.starts_with_space shadownet_agent.Markdown.Lines.heading
    shadownet_agent.Markdown.Lines.spaced_rest
render_markdown_total_example = render_markdown_total ascii intro_page short_text (refl, (refl, tt))

render_markdown-hangs_example : render_markdown 1000 ascii intro_page empty_heading ≡ none
unfolding lines_of txt
render_markdown-hangs_example =
    render_markdown-hangs ascii intro_page 0 empty_heading [] (omega arith) refl 1000

written-tokens_example : written (tokens (txt "run `x` **now**")) ≡ txt "run `x` **now**"
written-tokens_example = written-tokens (txt "run `x` **now**")
