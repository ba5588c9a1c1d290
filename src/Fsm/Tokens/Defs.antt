-- ===== src/Fsm/Tokens/Defs.antt =====
-- How a step moves the token counter and the tokens of the locks.
use zuul.Shared.{
  ℕ, ◌+◌, ◌≤◌, ◌<◌, Bytes, Option, none, some, ◌≡◌, ◌⊎◌, inl, inr, arith, bytes_key, refl, subst,
  Option-cases, ite, ◌≟◌, if_pos, if_neg,
}
use zuul.GoMap.{get}
use zuul.Fsm.Types.{Fsm, Lock}
use zuul.Fsm.WellFormed.{Wf}

-- A lock before and after: the same hold, or one whose token lies above the old counter `s` and not
-- above the new one `t`.
abbrev pub Moved : ℕ → ℕ → Option Lock → Option Lock → Type 0
Moved s t o none = Unit
Moved s t none (some b) = (s < b.token) × (b.token ≤ t)
Moved s t (some a) (some b) =
    ((a.holder ≡ b.holder) × (a.token ≡ b.token)) ⊎ ((s < b.token) × (b.token ≤ t))

-- At most `k` tokens were handed out, each above all earlier ones.
pub record Advance (k : ℕ) (f g : Fsm) : Type 0 where
  pub grows : f.seq ≤ g.seq
  pub at_most : g.seq ≤ f.seq + k
  pub moved : (n : Bytes) → Moved f.seq g.seq (get f.locks n) (get g.locks n)

abbrev pub LockNamed : Bytes → Option Lock → Type 0
LockNamed n none = Unit
LockNamed n (some lk) = lk.name ≡ n

abbrev pub Named : Fsm → Type 0
Named f = (n : Bytes) → LockNamed n (get f.locks n)

pub Moved-refl : (s t : ℕ) (o : Option Lock) → Moved s t o o
Moved-refl s t none = tt
Moved-refl s t (some a) = inl (refl, refl)

pub Moved-trans :
    (s t u : ℕ) (o p q : Option Lock)
    → s ≤ t
    → t ≤ u
    → Moved s t o p
    → Moved t u p q
    → Moved s u o q
Moved-trans s t u o p none h k m n = tt
Moved-trans s t u none none (some c) h k m n = omega arith
Moved-trans s t u none (some b) (some c) h k m n = ground arith
Moved-trans s t u (some a) none (some c) h k m n = inr (omega arith)
Moved-trans s t u (some a) (some b) (some c) h k m n = ground arith

pub Advance-refl : (f : Fsm) → Advance 0 f f
Advance-refl f = record {
  grows = omega arith;
  at_most = omega arith;
  moved = λ n. Moved-refl f.seq _ (get f.locks n);
}

pub Advance-trans : (j k : ℕ) (f g h : Fsm) → Advance j f g → Advance k g h → Advance (j + k) f h
Advance-trans j k f g h a b = record {
  grows = omega arith;
  at_most = omega arith;
  moved = λ n. Moved-trans f.seq g.seq h.seq _ _ _ a.grows b.grows (a.moved n) (b.moved n);
}

pub Advance-weaken : (j k : ℕ) (f g : Fsm) → j ≤ k → Advance j f g → Advance k f g
Advance-weaken j k f g le a = record { grows = a.grows; at_most = omega arith; moved = a.moved }

-- A step that leaves the locks and the counter alone.
pub Advance-same : (f g : Fsm) → g.locks ≡ f.locks → g.seq ≡ f.seq → Advance 0 f g
Advance-same f g p q = record {
  grows = omega arith;
  at_most = omega arith;
  moved = λ n. rw (p, q) (Moved-refl f.seq f.seq (get f.locks n));
}

pub Wf-Named : {x : Bytes} {f : Fsm} → Wf x f → Named f
Wf-Named {x} {f} h n = elim (Option-cases (get f.locks n)) [
  | inl e ↦ rw e tt
  | inr (lk, e) ↦ ground (arith, h.lock_ok n)
]

-- One lock is written, and the others stay.
put_lock-Advance :
    (k : ℕ) (f g : Fsm) (name : Bytes) (lk : Lock)
    → ((j : Bytes) → get g.locks j ≡ ite (name ≟ j) (some lk) (get f.locks j))
    → f.seq ≤ g.seq
    → g.seq ≤ f.seq + k
    → Moved f.seq g.seq (get f.locks name) (some lk)
    → Advance k f g
put_lock-Advance k f g name lk locks grows at_most m = record {
  grows = grows;
  at_most = at_most;
  moved = λ n. elim (name ≟ n) [
    | yes e ↦
        rw (locks n, if_pos _ e) (subst (λ j. Moved f.seq g.seq (get f.locks j) (some lk)) e m)
    | no d ↦ rw (locks n, if_neg _ d) (Moved-refl f.seq g.seq (get f.locks n))
  ];
}

-- The lock gets the next token.
pub fresh-Advance :
    (f g : Fsm) (name : Bytes) (lk : Lock)
    → ((j : Bytes) → get g.locks j ≡ ite (name ≟ j) (some lk) (get f.locks j))
    → g.seq ≡ f.seq + 1
    → lk.token ≡ f.seq + 1
    → Advance 1 f g
fresh-Advance f g name lk locks s t =
    put_lock-Advance 1 f g name lk locks (omega arith) (omega arith)
      (Moved-fresh (get f.locks name))
  where
    Moved-fresh : (o : Option Lock) → Moved f.seq g.seq o (some lk)
    Moved-fresh none = omega arith
    Moved-fresh (some a) = inr (omega arith)

-- The lock keeps its holder and token.
pub kept-Advance :
    (k : ℕ) (f g : Fsm) (name : Bytes) (old lk : Lock)
    → ((j : Bytes) → get g.locks j ≡ ite (name ≟ j) (some lk) (get f.locks j))
    → get f.locks name ≡ some old
    → (old.holder ≡ lk.holder) × (old.token ≡ lk.token)
    → f.seq ≤ g.seq
    → g.seq ≤ f.seq + k
    → Advance k f g
kept-Advance k f g name old lk locks found same grows at_most =
    put_lock-Advance k f g name lk locks grows at_most (rw found (inl same))
