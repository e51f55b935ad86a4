-- ===== src/Lib.antt =====
-- The website of ShadowNet Agent (SunLionet), a Next.js program in TypeScript under website/src,
-- as pure functions and state machines.
--
-- The parts, and how they interact:
--   * Markdown is lib/docs/markdown.tsx, the renderer of the documentation and of the blog.
--     Markdown/Lines holds the regular expressions that classify lines, Inline the tokens of
--     splitInline, Href the links of resolveHref, Blocks the loop of renderMarkdown, and
--     Blocks/Slug its anchors.
--   * Dashboard is lib/dashboard/types.ts (Types), lib/dashboard/privacy-filter.ts (Privacy,
--     where apply_privacy_filter is applyPrivacyFilter), lib/dashboard/fetch-dashboard-data.ts
--     (Fetch) and components/dashboard/LiveDashboard.tsx (Live), and what the panels under
--     components/dashboard select and count (Panels), with the controls (Filters). The live
--     dashboard fetches snapshots, filters them and shows them. Live/Feed states what its feed
--     promises apart from refs and requests. Map is components/dashboard/NetworkMap.tsx with the
--     selection around it, and Session the feed and the map together.
--   * Releases is lib/releases/local.ts: Names holds the parsing and order of tags and file
--     names, Listing the walk of getLocalReleases over public/downloads, and Footer the release
--     that components/SiteFooter.tsx names.
--   * Download is components/DownloadSection.tsx and components/useOsDetection.ts, which choose
--     an artifact from the listed releases (Choice), say how to install it (Steps), show its size
--     (Sizes) and list the platforms (Grid); Page is the state behind them.
--   * Theme is components/ThemeToggle.tsx and components/ThemeInitScript.tsx. Copying is the copy
--     buttons of components/DonationQRCard.tsx and components/DownloadSection.tsx, with the time
--     that their timers take.
--   * Runtime/Dashboard is the state of components/dashboard/RuntimeDashboard.tsx; Runtime/Events
--     the merging of its events, and the list of components/dashboard/EventTimeline.tsx;
--     Runtime/Debug the latest events that components/dashboard/DebugPanel.tsx shows;
--     Runtime/Proxy is the routes app/api/proxy and the client functions of lib/runtime-client.ts
--     that call them.
--   * Docs is lib/docs/fs.ts, and Docs/Content what lib/content/fs.ts adds to it: titles, the
--     walk over a file tree, the search for its root, and lookup by slug. Pages, Navigation and
--     Posts are the pages below app/docs, app/blog and app/updates, which show what is found, and
--     the links to them; those below app/[lang] pass their address on to them. Markdown renders
--     what they find.
--   * Links is lib/uiCopy.ts and components/LocalizedLink.tsx; Links/Header is
--     components/SiteHeader.tsx.
--   * Common holds what they share: text as lists of code points with the methods of JavaScript
--     strings (Text), sorting (Sort), maps with text keys (Dict), signed numbers (Int), lists and
--     tests.
--   * Tests runs the models on concrete inputs.
--
-- How state and operations correspond to the code. The functions keep the names of the source in
-- small letters: renderMarkdown is render_markdown. The main loop of renderMarkdown is a function
-- on fuel, `none` meaning that the fuel ran out; its index into the lines is the list of the
-- lines left, and one round more than there are lines decides whether the loop ends. In
-- Dashboard.Live the React state and the refs are fields of a record, beside the requests, event
-- sources and timers that the browser holds for them; each callback is an event of `handle`, and
-- after it `commit` runs the effect while its dependencies have changed, with fuel for the two
-- runs that are enough. React runs effects before the next event, as the model does. The end of
-- the page (unmounting) is not an event. In Releases.Listing a call of the file system returns
-- `none` where it throws. The answer of a page is the redirect, the miss or the document that it
-- ends in; the rounds given to renderMarkdown there are enough if any are. In Dashboard.Map each
-- callback of the map and each new snapshot is a step on a record of the switch, the snapshot,
-- the selection and the tooltip.
--
-- What is a parameter: the Unicode tables (`toLowerCase`, `normalize`, letter classes), the file
-- system, `path.join` and `localeCompare`, and whether opening a stream or writing to the
-- clipboard throws, `fetch` with its time-out, `JSON.parse`, and what a plain object inherits
-- under a name. Numbers are natural; rates and coordinates are integers in millionths, for which
-- half a degree is exact. Numbers beyond 2^53, lone surrogates and the texts of the pages are not
-- modelled, nor are JSX layout, the demo data, the Go agent and the Android application.
pub mod Common
pub mod Markdown
pub mod Dashboard
pub mod Releases
pub mod Runtime
pub mod Download
pub mod Links
pub mod Docs
pub mod Theme
pub mod Copying
pub mod Tests
