-- ===== src/Auth/Keypath/Prefix.antt =====
-- Prefixes cover keys on path boundaries only.
use zuul.Shared.{
  Bytes, Bool, true, [], ◌∷◌, ◌++◌, ite, ◌≟◌, ◌≡◌, ◌⊎◌, ◌↔◌, inl, inr, refl, ◌∙◌, arith, ite-elim,
  if_pos,
}
use mathlib.Core.List.{append_assoc}
use zuul.Auth.Keypath.{slash, starts_with, trim_slash, has_prefix}

pub starts_with-append : (p rest : Bytes) → starts_with (p ++ rest) p ≡ true
unfolding starts_with
starts_with-append [] [] = refl
starts_with-append [] (c ∷ cs) = refl
starts_with-append (c ∷ cs) rest = ground (arith, starts_with-append cs rest)

pub starts_with-split : (s p : Bytes) → starts_with s p ≡ true → (rest : Bytes) × (s ≡ p ++ rest)
unfolding starts_with
starts_with-split s [] h = (s, refl)
starts_with-split [] (p ∷ ps) h = cc h
starts_with-split (c ∷ cs) (p ∷ ps) h =
    let (rest, e) = starts_with-split cs ps (ground arith) in (rest, ground arith)

-- What a prefix covers: everything if it is empty, else the key that it is (a slash at its end
-- apart), and the keys that go on with a slash.
abbrev pub Covers : Bytes → Bytes → Type 0
Covers prefix key =
    (prefix ≡ [])
    ⊎ ((key ≡ trim_slash prefix) ⊎ ((rest : Bytes) × (key ≡ trim_slash prefix ++ (slash ∷ rest))))

-- `has_prefix` decides the covering relation, on every prefix and key.
pub has_prefix-Covers : (prefix key : Bytes) → (has_prefix prefix key ≡ true) ↔ Covers prefix key
unfolding has_prefix
has_prefix-Covers [] key = ((λ _. inl refl), λ _. refl)
has_prefix-Covers (c ∷ cs) key = (covered, covering)
  where
    p : Bytes
    p = trim_slash (c ∷ cs)

    P : Bool → Type 0
    P b = b ≡ true → Covers (c ∷ cs) key

    covered :
        ite (key ≟ trim_slash (c ∷ cs)) true (starts_with key (trim_slash (c ∷ cs) ++ (slash ∷ [])))
          ≡ true
        → Covers (c ∷ cs) key
    covered =
        ite-elim P (key ≟ p) true (starts_with key (p ++ (slash ∷ []))) (λ e _. inr (inl e))
          λ _ h.
            let (rest, e) = starts_with-split key (p ++ (slash ∷ [])) h in
            inr (inr (rest, (e ∙ append_assoc p (slash ∷ []) rest)))

    below : (rest : Bytes) → key ≡ p ++ (slash ∷ rest) → starts_with key (p ++ (slash ∷ [])) ≡ true
    below rest e =
        rw (e, ← append_assoc p (slash ∷ []) rest) (starts_with-append (p ++ (slash ∷ [])) rest)

    Q : Bool → Type 0
    Q b = b ≡ true

    covering :
        Covers (c ∷ cs) key
        → ite
            (key ≟ trim_slash (c ∷ cs))
            true
            (starts_with key (trim_slash (c ∷ cs) ++ (slash ∷ [])))
          ≡ true
    covering (inl e) = absurd (cc e)
    covering (inr (inl e)) = if_pos (key ≟ p) e _ _
    covering (inr (inr (rest, e))) =
        ite-elim Q (key ≟ p) true (starts_with key (p ++ (slash ∷ []))) (λ _. refl)
          (λ _. below rest e)
