-- ===== src/Releases/Names/Digest.antt =====
-- The checksum files that website/src/lib/releases/local.ts reads give 64 hexadecimal digits in lower
-- case.
use shadownet_agent.Common.{
  ℕ, ◌≡◌, refl, subst, ◌∙◌, inl, inr, arith, Bool, true, not, ◌&&◌, ◌||◌, leb, ◌==◌, if◌then◌else◌,
  none, some, [], ◌∷◌, map, all, length, find, is_empty, take, Option-cases, none_absurd,
}
use shadownet_agent.Common.Text.{Text, trim, lines_of}
use shadownet_agent.Releases.Names.{
  Checksum, parse_sha256_file_contents, is_hex, lower_hex, checksum_line,
  parse_sha256_file_contents,
}

-- A digest as it is shown: 64 hexadecimal digits, in lower case.
abbrev is_lower_hex : ℕ → Bool
is_lower_hex c = (leb b'a' c && leb c b'f') || (leb b'0' c && leb c b'9')

abbrev pub IsDigest : Text → Type 0
IsDigest h = (length h ≡ 64) × (all is_lower_hex h ≡ true)

lower_hex_lem : (c : ℕ) → is_hex c ≡ true → is_lower_hex (lower_hex c) ≡ true
unfolding is_hex lower_hex
lower_hex_lem c h = ground arith

all-map-lower_hex : (s : Text) → all is_hex s ≡ true → all is_lower_hex (map lower_hex s) ≡ true
all-map-lower_hex [] h = refl
all-map-lower_hex (c ∷ s) h = ground (arith, lower_hex_lem c, all-map-lower_hex s)

length-map-lower_hex : (s : Text) → length (map lower_hex s) ≡ length s
length-map-lower_hex [] = refl
length-map-lower_hex (c ∷ s) = omega (arith, length-map-lower_hex s)

&&-true : (a b c d e f : Bool) → (a && b && c && d && e && f) ≡ true → (a ≡ true) × (b ≡ true)
&&-true a b c d e f h = ground arith

if-some {ℓ} :
    {A : Type ℓ} (b : Bool) (x y : A) → (if b then some x else none) ≡ some y → (b ≡ true) × (x ≡ y)
if-some b x y h = ground arith

==→eq : (a b : ℕ) → (a == b) ≡ true → a ≡ b
==→eq a b h = ground arith

checksum_line-IsDigest :
    (line : Text) (m : Checksum) → checksum_line line ≡ some m → IsDigest m.hash
unfolding checksum_line
checksum_line-IsDigest line m h =
    let hex = take 64 line in
    let (t, e) = if-some _ _ m h in
    let (l, x) = &&-true _ _ _ _ _ _ t in
    subst (λ (c : Checksum). IsDigest c.hash) e
      (length-map-lower_hex hex ∙ ==→eq (length hex) 64 l, all-map-lower_hex hex x)

pub parse_sha256-IsDigest :
    (contents : Text) (m : Checksum)
    → parse_sha256_file_contents contents ≡ some m
    → IsDigest m.hash
unfolding parse_sha256_file_contents
parse_sha256-IsDigest contents m h =
    elim (Option-cases (find (λ l. not (is_empty (trim l))) (lines_of contents))) [
      | inl e ↦ none_absurd (rw (e, parse_sha256_file_contents) at h)
      | inr (line, e) ↦
          checksum_line-IsDigest (trim line) m (rw (e, parse_sha256_file_contents) at h)
    ]
