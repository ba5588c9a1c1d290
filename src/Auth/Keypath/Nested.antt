-- ===== src/Auth/Keypath/Nested.antt =====
-- Prefixes of prefixes, and the owner of what a canonical path covers.
use zuul.Shared.{
  ℕ, Bytes, Bool, true, false, none, some, List, [], ◌∷◌, ◌++◌, ◌==◌, ◌≡◌, ◌≢◌, ◌⊎◌, inl, inr, refl,
  ap, sym, ◌∙◌, subst, arith, length, if◌then◌else◌,
}
use mathlib.Core.List.{append_assoc}
use zuul.Auth.Keypath.{
  slash, split, add_to_head, trim_slash, ends_with_slash, has_prefix, validate, owner, before_slash,
  check_tail,
}
use zuul.Auth.Keypath.Prefix.{Covers, has_prefix-Covers}

trim_slash-end : (s : Bytes) → ends_with_slash s ≡ false → trim_slash s ≡ s
unfolding trim_slash ends_with_slash
trim_slash-end [] h = refl
trim_slash-end (c ∷ []) h = ground (arith, h)
trim_slash-end (c ∷ d ∷ cs) h = ap (λ r. c ∷ r) (trim_slash-end (d ∷ cs) h)

-- A slash with something behind it is not trimmed, one at the end is.
trim_slash-append :
    (a t : Bytes)
    → (trim_slash (a ++ slash ∷ t) ≡ a)
      ⊎ ((u : Bytes) × (trim_slash (a ++ slash ∷ t) ≡ a ++ slash ∷ u))
unfolding trim_slash
trim_slash-append [] [] = inl refl
trim_slash-append [] (d ∷ t) = inr (trim_slash (d ∷ t), refl)
trim_slash-append (c ∷ []) [] = inl refl
trim_slash-append (c ∷ []) (d ∷ t) = inr (trim_slash (d ∷ t), refl)
trim_slash-append (c ∷ d ∷ cs) t = elim (trim_slash-append (d ∷ cs) t) [
  | inl e ↦ inl (ap (λ r. c ∷ r) e)
  | inr (u, e) ↦ inr (u, ap (λ r. c ∷ r) e)
]

-- `n` is `b` or goes on from it with a slash.
abbrev Under : Bytes → Bytes → Type 0
Under b n = (n ≡ b) ⊎ ((rest : Bytes) × (n ≡ b ++ (slash ∷ rest)))

Under-trans : (a b n : Bytes) → Under a b → Under b n → Under a n
Under-trans a b n (inl x) (inl y) = inl (y ∙ x)
Under-trans a b n (inl x) (inr (s, y)) = inr (s, y ∙ ap (λ q. q ++ slash ∷ s) x)
Under-trans a b n (inr (u, x)) (inl y) = inr (u, y ∙ x)
Under-trans a b n (inr (u, x)) (inr (s, y)) =
    inr (u ++ slash ∷ s, y ∙ ap (λ q. q ++ slash ∷ s) x ∙ append_assoc a (slash ∷ u) (slash ∷ s))

trim_slash-Under : (a p : Bytes) → ends_with_slash a ≡ false → Under a p → Under a (trim_slash p)
trim_slash-Under a p z (inl e) = inl (ap trim_slash e ∙ trim_slash-end a z)
trim_slash-Under a p z (inr (t, e)) =
    subst (λ q. Under a (trim_slash q)) (sym e) (trim_slash-append a t)

Covers-trans :
    (r p n : Bytes)
    → ends_with_slash (trim_slash r) ≡ false
    → p ≢ []
    → Covers r p
    → Covers p n
    → Covers r n
Covers-trans r p n z ne (inl e) c = inl e
Covers-trans r p n z ne (inr k) (inl e) = absurd (ne e)
Covers-trans r p n z ne (inr k) (inr c) =
    inr (Under-trans (trim_slash r) (trim_slash p) n (trim_slash-Under (trim_slash r) p z k) c)

-- A prefix that does not end in two slashes covers what is covered by a prefix that it covers.
pub has_prefix_trans :
    (r p n : Bytes)
    → ends_with_slash (trim_slash r) ≡ false
    → p ≢ []
    → has_prefix r p ≡ true
    → has_prefix p n ≡ true
    → has_prefix r n ≡ true
has_prefix_trans r p n z ne h k =
    (has_prefix-Covers r n).1
      (Covers-trans r p n z ne ((has_prefix-Covers r p).0 h) ((has_prefix-Covers p n).0 k))

-- Two segments: there is a slash.
abbrev has_slash : Bytes → Bool
has_slash [] = false
has_slash (c ∷ cs) = if c == slash then true else has_slash cs

length-add_to_head : (c : ℕ) (ss : List Bytes) → length ss ≡ 1 → length (add_to_head c ss) ≡ 1
length-add_to_head c [] h = refl
length-add_to_head c (s ∷ ss) h = h

split-has_slash : (s : Bytes) → has_slash s ≡ false → length (split s) ≡ 1
unfolding split
split-has_slash [] h = refl
split-has_slash (c ∷ cs) h = ground (arith, h, split-has_slash cs, length-add_to_head c (split cs))

before_slash-append : (s t : Bytes) → has_slash s ≡ true → before_slash (s ++ t) ≡ before_slash s
unfolding before_slash
before_slash-append [] t h = ground (arith, h)
before_slash-append (c ∷ cs) t h = ground (arith, h, before_slash-append cs t)

-- A canonical path is a slash, and something with another slash that is not at its end.
canonical-slashes :
    (c : ℕ) (p : Bytes)
    → validate (c ∷ p) ≡ none
    → (has_slash p ≡ true) × (ends_with_slash (c ∷ p) ≡ false)
unfolding validate check_tail
canonical-slashes c p h = ground (arith, h, split-has_slash p)

owner-canonical :
    (c : ℕ) (p : Bytes) → validate (c ∷ p) ≡ none → owner (c ∷ p) ≡ some (before_slash p)
unfolding owner
owner-canonical c p v = rw v refl

owner-Under :
    (c : ℕ) (p n : Bytes)
    → validate (c ∷ p) ≡ none
    → validate n ≡ none
    → Under (c ∷ p) n
    → owner n ≡ owner (c ∷ p)
owner-Under c p n v u (inl e) = ap owner e
owner-Under c p n v u (inr (rest, e)) =
    ap owner e
    ∙ owner-canonical c (p ++ slash ∷ rest) (subst (λ k. validate k ≡ none) e u)
    ∙ ap (λ (o : Bytes). some o) (before_slash-append p (slash ∷ rest) (canonical-slashes c p v).0)
    ∙ sym (owner-canonical c p v)

-- A canonical path has the owner of the canonical path that covers it.
pub has_prefix-owner :
    (p n : Bytes)
    → validate p ≡ none
    → validate n ≡ none
    → has_prefix p n ≡ true
    → owner n ≡ owner p
has_prefix-owner [] n v u h = absurd (empty_path v)
  where
    empty_path : validate [] ≢ none
    empty_path = unfold validate in λ e. ground (arith, e)
has_prefix-owner (c ∷ p) n v u h = elim ((has_prefix-Covers (c ∷ p) n).0 h) [
  | inl e ↦ ground (arith, e)
  | inr k ↦
      owner-Under c p n v u
        (subst (λ b. Under b n) (trim_slash-end (c ∷ p) (canonical-slashes c p v).1) k)
]
