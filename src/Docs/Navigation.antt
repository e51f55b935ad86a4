-- ===== src/Docs/Navigation.antt =====
-- The links to the documents: docHref and the side bar of website/src/app/docs/layout.tsx and of
-- website/src/app/[lang]/docs/layout.tsx, and the list of website/src/app/docs/all/page.tsx.
pub mod Grouped
pub mod Signal
pub mod Sidebar
use shadownet_agent.Common.Dict.{Dict, get, set}
use shadownet_agent.Common.Int.{ℤ, pos, lebℤ}
use shadownet_agent.Common.Sort.{sort}
use shadownet_agent.Common.Text.{Text, txt, same, join, trim}
use shadownet_agent.Common.{
  Bool, true, false, not, ◌&&◌, ◌||◌, Option, none, some, List, [], ◌∷◌, ◌++◌, map, filter,
  is_empty, drop, if◌then◌else◌,
}
use shadownet_agent.Docs.Pages.{is_index, ends_in_index, all_but_last, is_farsi}
use shadownet_agent.Docs.{DocEntry, slug_key}

-- docHref, the same function in the three files.
unfoldable pub doc_href : Text → List Text → Text
doc_href base_prefix slug =
    let base = base_prefix ++ txt "/docs" in
    if is_index slug
    then base
    else if ends_in_index slug
    then base ++ txt "/" ++ join (txt "/") (all_but_last slug)
    else base ++ txt "/" ++ join (txt "/") slug

pub record NavItem : Type 0 where
  pub label : Text
  pub href : Text

-- `new Map(entries.map(...))`: a later entry with the same key replaces an earlier one.
unfoldable pub nav_from : Text → Dict NavItem → List DocEntry → Dict NavItem
nav_from base index [] = index
nav_from base index (e ∷ more) =
    nav_from base
      (set (slug_key e.slug) (record { label = e.title; href = doc_href base e.slug }) index) more

unfoldable pub nav_index : Text → List DocEntry → Dict NavItem
nav_index base entries = nav_from base [] entries

-- pick
unfoldable pub pick : Dict NavItem → List Text → Option NavItem
pick index slug = get (slug_key slug) index

-- `[pick(...), ...].filter(Boolean)`
unfoldable pub picked : Dict NavItem → List (List Text) → List NavItem
picked index [] = []
picked index (slug ∷ more) =
    let rest = picked index more in elim (pick index slug) [ none ↦ rest | some item ↦ item ∷ rest ]

pub record NavSection : Type 0 where
  pub title : Text
  pub items : List NavItem

abbrev pub below : Text → List Text → List (List Text)
below dir [] = []
below dir (name ∷ names) = (dir ∷ name ∷ []) ∷ below dir names

abbrev pub alone : List Text → List (List Text)
alone names = map (λ (name : Text). name ∷ []) names

-- The word "Farsi" in Farsi, the title of the last section.
abbrev pub farsi_title : Text
farsi_title = 0x641 ∷ 0x627 ∷ 0x631 ∷ 0x633 ∷ 0x6cc ∷ []

-- The slugs of each section.
abbrev pub sections_of_slugs : List (Text × List (List Text))
sections_of_slugs =
    (
      txt "Overview",
      alone (
          txt "index"
          ∷ txt "install"
          ∷ txt "architecture"
          ∷ txt "core-modules"
          ∷ txt "bundle-format"
          ∷ txt "signal"
          ∷ txt "threat-model"
          ∷ []),
    )
    ∷ (
      txt "User",
      below (txt "user")
          (txt "install-android" ∷ txt "install-linux" ∷ txt "update" ∷ txt "safety" ∷ []),
    )
    ∷ (
      txt "Outside",
      below (txt "outside") (txt "verification" ∷ txt "trust-model" ∷ txt "bundle-generation" ∷ []),
    )
    ∷ (
      txt "Android",
      below (txt "android") (txt "setup" ∷ txt "architecture" ∷ txt "troubleshooting" ∷ []),
    )
    ∷ (
      txt "Governance",
      below (txt "governance") (txt "model" ∷ txt "trust" ∷ txt "resilience" ∷ []),
    )
    ∷ (
      farsi_title,
      (txt "fa" ∷ txt "index" ∷ [])
          ∷ (txt "fa" ∷ txt "install" ∷ [])
          ∷ (txt "fa" ∷ txt "user" ∷ txt "safety" ∷ [])
          ∷ (txt "fa" ∷ txt "outside" ∷ txt "verification" ∷ [])
          ∷ [],
    )
    ∷ []

unfoldable pub filled_sections : Dict NavItem → List (Text × List (List Text)) → List NavSection
filled_sections index [] = []
filled_sections index ((title, slugs) ∷ more) =
    let rest = filled_sections index more in
    let items = picked index slugs in
    if is_empty items then rest else record { title = title; items = items } ∷ rest

-- `sections` of the two layouts, by the prefix of their links.
unfoldable pub nav_sections : Text → List DocEntry → List NavSection
nav_sections base entries = filled_sections (nav_index base entries) sections_of_slugs

pub record AllItem : Type 0 where
  pub href : Text
  pub title : Text
  pub slug : List Text

pub record Group : Type 0 where
  pub title : Text
  pub items : List AllItem

-- groupKey
unfoldable pub group_key : List Text → Text
group_key [] = txt "Root"
group_key (part ∷ []) = txt "Root"
group_key (part ∷ next ∷ more) = part

-- The documents that the list shows.
unfoldable pub is_shown : Bool → DocEntry → Bool
is_shown is_fa e =
    not (is_index e.slug) && (if is_fa then is_farsi e.slug else not (is_farsi e.slug))

unfoldable pub all_item : Text → Bool → DocEntry → AllItem
all_item base is_fa e =
    let slug = if is_fa then drop 1 e.slug else e.slug in
    record { href = doc_href base slug; title = e.title; slug = slug }

-- One round of the loop: the item is pushed to the list of its group.
unfoldable pub add_item : AllItem → Dict Group → Dict Group
add_item item groups =
    let key = group_key item.slug in
    elim (get key groups) [
      | none ↦ set key (record { title = key; items = item ∷ [] }) groups
      | some group ↦ set key (record group { items = group.items ++ item ∷ [] }) groups
    ]

unfoldable pub group_from : Text → Bool → Dict Group → List DocEntry → Dict Group
group_from base is_fa groups [] = groups
group_from base is_fa groups (e ∷ more) =
    let next = if is_shown is_fa e then add_item (all_item base is_fa e) groups else groups in
    group_from base is_fa next more

abbrev pub text_le : (Text → Text → ℤ) → Text → Text → Bool
text_le collate a b = lebℤ (collate a b) (pos 0)

abbrev pub sorted_items : (Text → Text → ℤ) → Group → Group
sorted_items collate group = record group {
  items = sort (λ (a b : AllItem). text_le collate a.href b.href) group.items;
}

-- The prefix of the page's links, by its language parameter.
unfoldable pub all_base : Option Text → Text
all_base none = []
all_base (some lang) =
    if same lang (txt "fa") then txt "/fa" else if same lang (txt "en") then txt "/en" else []

-- DocsAllPage
unfoldable pub ordered_groups : (Text → Text → ℤ) → Option Text → List DocEntry → List Group
ordered_groups collate lang entries =
    let base = all_base lang in
    let groups = group_from base (same base (txt "/fa")) [] entries in
    map (sorted_items collate) (
      sort (λ (a b : Group). text_le collate a.title b.title)
        (map (λ (g : Text × Group). g.1) groups))
