-- ===== src/Markdown/Href/Confined.antt =====
-- Where a relative link between Markdown files can lead.
use shadownet_agent.Common.{
  ◌≡◌, ◌≢◌, refl, sym, ap, ◌∙◌, ◌≡⟨◌⟩◌, ◌∎, arith, List, [], ◌∷◌, ◌++◌, reverse, append_assoc,
  append-nil, All,
}
use mathlib.Core.List.{reverse_aux, reverse-cons, reverse-append, reverse-reverse}
use shadownet_agent.Common.Text.{Text, txt, same}
use shadownet_agent.Common.Text.Laws.{Lacks, same_iff, split-Lacks}
use shadownet_agent.Markdown.Href.{segment, segments_from, segments, joined_segments}

-- A segment that names a file or a directory below the one it stands in.
abbrev pub IsPlain : Text → Type 0
IsPlain seg = (seg ≢ txt "") × (seg ≢ txt ".") × (seg ≢ txt "..") × Lacks b'/' seg

All-reverse_aux :
    (P : Text → Type 0) (xs ys : List Text) → All P xs → All P ys → All P (reverse_aux xs ys)
All-reverse_aux P [] ys h k = k
All-reverse_aux P (x ∷ xs) ys (p, h) k = All-reverse_aux P xs (x ∷ ys) h (p, k)

segment-IsPlain :
    (acc : List Text) (seg : Text)
    → All IsPlain acc
    → Lacks b'/' seg
    → All IsPlain (segment acc seg)
unfolding segment
segment-IsPlain [] seg h l =
    ground (arith, same_iff seg (txt "."), same_iff seg (txt ""), same_iff seg (txt ".."))
segment-IsPlain (a ∷ acc) seg h l =
    ground (arith, same_iff seg (txt "."), same_iff seg (txt ""), same_iff seg (txt ".."))

segments_from-IsPlain :
    (acc segs : List Text)
    → All IsPlain acc
    → All (Lacks b'/') segs
    → All IsPlain (segments_from acc segs)
unfolding segments_from
segments_from-IsPlain acc [] h k = All-reverse_aux IsPlain acc [] h tt
segments_from-IsPlain acc (seg ∷ segs) h (l, k) =
    segments_from-IsPlain (segment acc seg) segs (segment-IsPlain acc seg h l) k

-- However a relative link is written, and from whatever page, the path that it resolves to is a
-- chain of plain names: no empty part, no `.`, no `..` and no slash is left, so it does not leave
-- the directory of the pages.
pub joined_segments-IsPlain :
    (base_slug : List Text) (rel : Text) → All IsPlain (joined_segments base_slug rel)
unfolding joined_segments segments
joined_segments-IsPlain base_slug rel = segments_from-IsPlain [] _ tt (split-Lacks b'/' _)

segment_of_IsPlain : (acc : List Text) (seg : Text) → IsPlain seg → segment acc seg ≡ seg ∷ acc
unfolding segment
segment_of_IsPlain acc seg h =
    ground (arith, same_iff seg (txt "."), same_iff seg (txt ""), same_iff seg (txt ".."))

segments_from_of_IsPlain :
    (acc segs rest : List Text)
    → All IsPlain segs
    → segments_from acc (segs ++ rest) ≡ segments_from (reverse segs ++ acc) rest
unfolding segments_from
segments_from_of_IsPlain acc [] rest h = refl
segments_from_of_IsPlain acc (seg ∷ segs) rest (p, h) =
    ap (λ (a : List Text). segments_from a (segs ++ rest)) (segment_of_IsPlain acc seg p)
    ∙ segments_from_of_IsPlain (seg ∷ acc) segs rest h
    ∙ ap (λ (a : List Text). segments_from a rest) (simp (reverse-cons, append_assoc))

segments_from-nil : (acc : List Text) → segments_from acc [] ≡ reverse acc
unfolding segments_from
segments_from-nil acc = refl

segments_from_parent :
    (acc names : List Text) (dir : Text)
    → IsPlain dir
    → segments_from acc (dir ∷ txt ".." ∷ names) ≡ segments_from acc names
unfolding segments_from segment same txt
segments_from_parent acc names dir p =
    rw (segment_of_IsPlain acc dir p) (ap (λ (a : List Text). segments_from a names) (pops dir acc))
  where
    pops : (d : Text) (a : List Text) → segment (d ∷ a) (txt "..") ≡ a
    pops d a = refl

-- A path of plain names resolves to itself, and a `..` takes back the name before it: what follows
-- is read from the directory above.
pub segments-parent :
    (dirs names : List Text) (dir : Text)
    → All IsPlain dirs
    → IsPlain dir
    → All IsPlain names
    → segments (dirs ++ dir ∷ txt ".." ∷ names) ≡ dirs ++ names
unfolding segments
segments-parent dirs names dir h p k =
    segments_from [] (dirs ++ dir ∷ txt ".." ∷ names)
    ≡⟨ segments_from_of_IsPlain [] dirs _ h ⟩
      segments_from (reverse dirs ++ []) (dir ∷ txt ".." ∷ names)
    ≡⟨ segments_from_parent (reverse dirs ++ []) names dir p ⟩
      segments_from (reverse dirs ++ []) names
    ≡⟨ ap (segments_from (reverse dirs ++ [])) (sym (append-nil names)) ⟩
      segments_from (reverse dirs ++ []) (names ++ [])
    ≡⟨ segments_from_of_IsPlain (reverse dirs ++ []) names [] k ⟩
      segments_from (reverse names ++ (reverse dirs ++ [])) []
    ≡⟨ segments_from-nil _ ⟩ reverse (reverse names ++ (reverse dirs ++ []))
    ≡⟨ (simp (append-nil, reverse-append, reverse-reverse)) ⟩ dirs ++ names ∎
