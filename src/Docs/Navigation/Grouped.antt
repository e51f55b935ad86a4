-- ===== src/Docs/Navigation/Grouped.antt =====
-- The list of website/src/app/docs/all/page.tsx has every document of the language, under its group.
use mathlib.Core.List.Perm
use mathlib.Core.List.{Perm}
use shadownet_agent.Common.Dict.{Dict}
use shadownet_agent.Common.Text.{Text}
use shadownet_agent.Common.{Bool, Option, List, [], ◌∷◌, ◌++◌, map, filter}
use shadownet_agent.Docs.Navigation.{AllItem, Group, is_shown, all_item}
use shadownet_agent.Docs.{DocEntry}

-- The lists of some values, one after another.
abbrev pub joined {ℓ} : {A : Type ℓ} {B : Type 0} → (A → List B) → List A → List B
joined f [] = []
joined f (x ∷ xs) = f x ++ joined f xs

abbrev items_of : Text × Group → List AllItem
items_of (key, group) = group.items

-- The items that the list is to have.
abbrev pub items_to_show : Text → Bool → List DocEntry → List AllItem
items_to_show base is_fa entries = map (all_item base is_fa) (filter (is_shown is_fa) entries)
