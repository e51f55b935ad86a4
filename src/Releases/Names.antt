-- ===== src/Releases/Names.antt =====
-- The names of releases and artifacts in website/src/lib/releases/local.ts: parsing and order.
pub mod Digest
pub mod Order
pub mod Parsing
use shadownet_agent.Common.{
  ℕ, ◌-◌, ◌+◌, Bool, true, false, not, ◌&&◌, ◌||◌, Option, none, some, List, [], ◌∷◌, ◌++◌, map,
  ◌==◌, leb, ltb, if◌then◌else◌, is_empty, all, find, span, drop, take, length,
}
use shadownet_agent.Common.Int.{ℤ, pos, sub_ℕ, lebℤ}
use shadownet_agent.Common.Text.{
  Text, txt, starts_with, ends_with, strip_suffix?, is_digit, is_space, trim, trim_start, number,
  lines_of,
}

pub record Semver : Type 0 where
  pub major : ℕ
  pub minor : ℕ
  pub patch : ℕ

-- `(\d+)` and what follows it.
unfoldable pub digits : Text → Option (ℕ × Text)
digits s = let (ds, rest) = span is_digit s in if is_empty ds then none else some (number ds, rest)

-- The character `c`, and what follows it.
unfoldable pub after : ℕ → Text → Option Text
after c [] = none
after c (d ∷ s) = if d == c then some s else none

infixl 5 ◌>>=◌
abbrev pub ◌>>=◌ {ℓ κ} : {A : Type ℓ} {B : Type κ} → Option A → (A → Option B) → Option B
none >>= f = none
some a >>= f = f a

abbrev end_of : Text → Semver → Option Semver
end_of [] v = some v
end_of (c ∷ s) v = none

-- parseSemver: /^v(\d+)\.(\d+)\.(\d+)$/
unfoldable pub parse_semver : Text → Option Semver
parse_semver version = do
  s ← after b'v' version
  a ← digits s
  s' ← after b'.' a.1
  b ← digits s'
  s'' ← after b'.' b.1
  c ← digits s''
  end_of c.1 (record { major = a.0; minor = b.0; patch = c.0 })

-- compareReleaseAsc, its number as an integer. `a.localeCompare(b)` is the parameter `collate`.
unfoldable pub compare_semver : Semver → Semver → ℤ
compare_semver a b =
    if not (a.major == b.major)
    then sub_ℕ a.major b.major
    else if not (a.minor == b.minor)
    then sub_ℕ a.minor b.minor
    else sub_ℕ a.patch b.patch

unfoldable pub compare_release_asc : (Text → Text → ℤ) → Text → Text → ℤ
compare_release_asc collate a b = elim (parse_semver a) [
  | none ↦ collate a b
  | some pa ↦ elim (parse_semver b) [ none ↦ collate a b | some pb ↦ compare_semver pa pb ]
]

-- The test that `sort` makes: `compareReleaseAsc(a, b) <= 0`.
abbrev pub release_le : (Text → Text → ℤ) → Text → Text → Bool
release_le collate a b = lebℤ (compare_release_asc collate a b) (pos 0)

pub data ArtifactKind : Type 0 where
  tar_gz zip bin : ArtifactKind

unfoldable pub artifact_kind : Text → ArtifactKind
artifact_kind file_name =
    if ends_with file_name (txt ".tar.gz")
    then tar_gz
    else if ends_with file_name (txt ".zip")
    then zip
    else bin

pub data Role : Type 0 where
  inside outside : Role

abbrev pub role_name : Role → Text
role_name inside = txt "inside"
role_name outside = txt "outside"

-- /^(inside|outside)-/
unfoldable pub role_match : Text → Option Role
role_match rest =
    if starts_with rest (txt "inside" ++ txt "-")
    then some inside
    else if starts_with rest (txt "outside" ++ txt "-")
    then some outside
    else none

abbrev pub prefixes : List Text
prefixes = txt "sunlionet-" ∷ txt "shadownet-" ∷ []

-- `afterTag` less the extension of an archive.
unfoldable pub strip_archive : Text → Text
strip_archive after_tag = elim (strip_suffix? (txt ".tar.gz") after_tag) [
  | some t ↦ t
  | none ↦ elim (strip_suffix? (txt ".zip") after_tag) [ some t ↦ t | none ↦ after_tag ]
]

-- What follows the role, if it is the tag and a target.
unfoldable pub target_of : Text → Text → Option Text
target_of tag after_role =
    if starts_with after_role (tag ++ txt "-")
    then some (strip_archive (drop (length (tag ++ txt "-")) after_role))
    else none

unfoldable pub parse_role_and_target : Text → Text → Option Role × Option Text
parse_role_and_target tag file_name = elim (find (λ p. starts_with file_name p) prefixes) [
  | none ↦ (none, none)
  | some prefix ↦
      let rest = drop (length prefix) file_name in
      elim (role_match rest) [
        | none ↦ (none, none)
        | some role ↦ (some role, target_of tag (drop (length (role_name role ++ txt "-")) rest))
      ]
]

unfoldable pub is_hex : ℕ → Bool
is_hex c = (leb b'a' c && leb c b'f') || (leb b'A' c && leb c b'F') || (leb b'0' c && leb c b'9')

-- `toLowerCase` of a hexadecimal digit.
unfoldable pub lower_hex : ℕ → ℕ
lower_hex c = if leb b'A' c && leb c b'F' then c + 32 else c

pub record Checksum : Type 0 where
  pub hash : Text
  pub file_name : Text

-- /^([a-fA-F0-9]{64})\s+(\S+)$/ on a trimmed line, with the hash in lower case.
unfoldable pub checksum_line : Text → Option Checksum
checksum_line line =
    let hex = take 64 line in
    let rest = drop 64 line in
    let name = trim_start rest in
    if (length hex == 64)
      && all is_hex hex
      && not (is_empty rest)
      && not (length name == length rest)
      && not (is_empty name)
      && all (λ c. not (is_space c)) name
    then some (record { hash = map lower_hex hex; file_name = name })
    else none

-- parseSha256FileContents
unfoldable pub parse_sha256_file_contents : Text → Option Checksum
parse_sha256_file_contents contents =
    elim (find (λ l. not (is_empty (trim l))) (lines_of contents)) [
      | none ↦ none
      | some line ↦ checksum_line (trim line)
    ]
