-- ===== src/Auth/Keypath/Canonical.antt =====
-- Which keys are canonical: exactly the renderings of two or more legal segments.
use zuul.Shared.{
  ℕ, ◌≤◌, Bytes, codes, true, false, none, some, List, [], ◌∷◌, ◌++◌, ◌==◌, length, All, ◌≡◌, ◌≢◌,
  ◌↔◌, refl, ap, sym, ◌∙◌, subst, arith, Option-cases, Bool-cases, inl, inr,
}
use zuul.Auth.Keypath.{
  slash, split, add_to_head, ends_with_slash, is_segment_rune, check_runes, validate_segment,
  check_segments, validate, before_slash, owner, max_path_len, max_segment_len,
}

-- A segment character: a letter, a digit, or one of ". _ @ -".
abbrev pub IsLegalRune : ℕ → Type 0
IsLegalRune r = is_segment_rune r ≡ true

abbrev pub IsLegal : Bytes → Type 0
IsLegal s =
    (s ≢ []) × (s ≢ codes ".") × (s ≢ codes "..") × (length s ≤ max_segment_len) × All IsLegalRune s

-- "/" before each segment.
unfoldable pub render : List Bytes → Bytes
render [] = []
render (s ∷ ss) = slash ∷ (s ++ render ss)

check_runes-none : (s : Bytes) → check_runes s ≡ none → All IsLegalRune s
unfolding check_runes
check_runes-none [] h = tt
check_runes-none (r ∷ rs) h = ground (arith, check_runes-none rs)

validate_segment-none : (s : Bytes) → validate_segment s ≡ none → IsLegal s
unfolding validate_segment
validate_segment-none s h = ground (arith, check_runes-none s)

legal-check_runes : (s : Bytes) → All IsLegalRune s → check_runes s ≡ none
unfolding check_runes
legal-check_runes [] h = refl
legal-check_runes (r ∷ rs) h = ground (arith, legal-check_runes rs)

legal-validate_segment : (s : Bytes) → IsLegal s → validate_segment s ≡ none
unfolding validate_segment
legal-validate_segment s h = ground (arith, legal-check_runes s)

check_segments-none : (ss : List Bytes) → check_segments ss ≡ none → All IsLegal ss
unfolding check_segments
check_segments-none [] h = tt
check_segments-none (s ∷ ss) h =
    (validate_segment-none s (ground arith), check_segments-none ss (ground arith))

legal-check_segments : (ss : List Bytes) → All IsLegal ss → check_segments ss ≡ none
unfolding check_segments
legal-check_segments [] h = refl
legal-check_segments (s ∷ ss) h =
    ground (arith, legal-validate_segment s h.0, legal-check_segments ss h.1)

abbrev NoSlash : Bytes → Type 0
NoSlash = All (λ c. (c == slash) ≡ false)

legal-NoSlash : (s : Bytes) → All IsLegalRune s → NoSlash s
unfolding is_segment_rune
legal-NoSlash [] h = tt
legal-NoSlash (c ∷ cs) h = (ground arith, legal-NoSlash cs h.1)

render-add_to_head :
    (c : ℕ) (cs : Bytes) (ss : List Bytes)
    → render ss ≡ slash ∷ cs
    → render (add_to_head c ss) ≡ slash ∷ c ∷ cs
unfolding render
render-add_to_head c cs [] h = cc
render-add_to_head c cs (s ∷ ss) h = cc

-- Splitting loses nothing.
render-split : (cs : Bytes) → render (split cs) ≡ slash ∷ cs
unfolding render split
render-split [] = refl
render-split (c ∷ cs) = elim (Bool-cases (c == slash)) [
  | inl e ↦ rw e (ground (arith, render-split cs))
  | inr e ↦ rw e (render-add_to_head c cs (split cs) (render-split cs))
]

-- Segments without a slash are found again.
split-render :
    (s : Bytes) (ss : List Bytes) → NoSlash s → All NoSlash ss → split (s ++ render ss) ≡ s ∷ ss
unfolding render split
split-render [] [] n ns = refl
split-render [] (t ∷ ts) n ns = ground (arith, split-render t ts ns.0 ns.1)
split-render (c ∷ cs) ss n ns = rw (n.0, split-render cs ss n.1 ns)

-- No rendering of legal segments ends in a slash.
render_ends :
    (c : ℕ) (s : Bytes) (ss : List Bytes)
    → (c == slash) ≡ false
    → NoSlash s
    → All IsLegal ss
    → ends_with_slash (c ∷ (s ++ render ss)) ≡ false
unfolding render ends_with_slash
render_ends c [] [] n ns l = n
render_ends c [] ([] ∷ ts) n ns l = absurd (l.0.0 refl)
render_ends c [] ((d ∷ t) ∷ ts) n ns l =
    let free = legal-NoSlash (d ∷ t) l.0.4 in render_ends d t ts free.0 free.1 l.1
render_ends c (d ∷ t) ss n ns l = render_ends d t ss ns.0 ns.1 l

rendered_ends :
    (s : Bytes) (ss : List Bytes) → All IsLegal (s ∷ ss) → ends_with_slash (render (s ∷ ss)) ≡ false
unfolding render ends_with_slash
rendered_ends [] ss l = absurd (l.0.0 refl)
rendered_ends (d ∷ t) ss l =
    let free = legal-NoSlash (d ∷ t) l.0.4 in render_ends d t ss free.0 free.1 l.1

legal-All : (ss : List Bytes) → All IsLegal ss → All NoSlash ss
legal-All [] h = tt
legal-All (s ∷ ss) h = (legal-NoSlash s h.0.4, legal-All ss h.1)

-- A canonical key: "/" before each of at least two legal segments, at most 1024 bytes in all.
abbrev pub IsCanonical : Bytes → Type 0
IsCanonical key =
    (ss : List Bytes) × (key ≡ render ss)
    × (2 ≤ length ss)
    × All IsLegal ss
    × (length key ≤ max_path_len)

accepted-parts :
    (c : ℕ) (rest : Bytes)
    → validate (c ∷ rest) ≡ none
    → (c ≡ slash)
      × (2 ≤ length (split rest))
      × (check_segments (split rest) ≡ none)
      × (length (c ∷ rest) ≤ max_path_len)
unfolding validate
accepted-parts c rest h = ground arith

accepted : (key : Bytes) → validate key ≡ none → IsCanonical key
accepted [] h = unfold validate in cc h
accepted (c ∷ rest) h =
    let p = accepted-parts c rest h in
    (
      split rest,
      (ap (λ (d : ℕ). d ∷ rest) p.0 ∙ sym (render-split rest)),
      p.1,
      check_segments-none (split rest) p.2,
      p.3,
    )

canonical :
    (ss : List Bytes)
    → 2 ≤ length ss
    → All IsLegal ss
    → length (render ss) ≤ max_path_len
    → validate (render ss) ≡ none
unfolding render validate
canonical [] n l b = absurd (omega arith)
canonical (s ∷ ss) n l b = ground (
  arith,
  split-render s ss (legal-NoSlash s l.0.4) (legal-All ss l.1),
  rendered_ends s ss l,
  legal-check_segments (s ∷ ss) l,
)

-- `validate` accepts a key exactly if it is canonical.
pub validate-IsCanonical : (key : Bytes) → (validate key ≡ none) ↔ IsCanonical key
validate-IsCanonical key = (
  accepted key,
  λ c.
      subst (λ k. validate k ≡ none) (sym c.1)
        (canonical c.0 c.2 c.3 (subst (λ k. length k ≤ max_path_len) c.1 c.4)),
)

before_slash-render : (s : Bytes) (ss : List Bytes) → NoSlash s → before_slash (s ++ render ss) ≡ s
unfolding before_slash render
before_slash-render [] [] n = refl
before_slash-render [] (t ∷ ts) n = refl
before_slash-render (c ∷ cs) ss n = rw (n.0, before_slash-render cs ss n.1)

-- The owner of a canonical path is its first segment: for two or more legal segments whose rendering
-- is at most 1024 bytes long, the owner of the rendering is the first of them.
pub owner-render :
    (s : Bytes) (ss : List Bytes)
    → 1 ≤ length ss
    → All IsLegal (s ∷ ss)
    → length (render (s ∷ ss)) ≤ max_path_len
    → owner (render (s ∷ ss)) ≡ some s
unfolding owner render
owner-render s ss n l b =
    rw (canonical (s ∷ ss) (omega arith) l b)
      (ap (λ (o : Bytes). some o) (before_slash-render s ss (legal-NoSlash s l.0.4)))

-- What is no canonical path has no owner.
pub owner-none : (key : Bytes) → validate key ≢ none → owner key ≡ none
unfolding owner
owner-none key h = elim (Option-cases (validate key)) [ inl e ↦ absurd (h e) | inr (x, e) ↦ rw e ]
