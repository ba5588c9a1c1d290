-- ===== src/Session/Committed.antt =====
-- A proposal through the session manager or a handler, over a proposer that reaches every shard.
use zuul.Shared.{ℕ, some, [], ◌≡◌, refl, nat_key, ite-elim}
use zuul.Fsm.Types.{Fsm, Command, CommandResult, ok}
use zuul.Fsm.Apply.{apply}
use zuul.Fsm.WellFormed.{Wf}
use zuul.Consensus.{Codec}
use zuul.Consensus.Log.{Lossless}
use zuul.Session.{got, propose}
use zuul.Session.Lapse.{committed, at}

pub at-Wf : (w : ℕ → Fsm) (k : ℕ) (f : Fsm) (j : ℕ) → Wf [] (w j) → Wf [] f → Wf [] (at w k f j)
at-Wf w k f j h g = ite-elim (Wf []) (nat_key.dec k j) f (w j) (λ _. g) (λ _. h)

module _ {C R : Type 0} (commands : Codec Command C) (results : Codec CommandResult R)
    (cb : Command → C) (rb : CommandResult → R) (lc : Lossless commands cb)
    (lr : Lossless results rb) where
  pub propose-ok :
      (w : ℕ → Fsm) (k : ℕ) (c : Command) (r : CommandResult)
      → (apply (w k) (some c)).1 ≡ ok r
      → propose (committed commands results) commands results w k c
        ≡ (at w k (apply (w k) (some c)).0, got r)
  unfolding propose
  propose-ok w k c r e = rw ((lc c).0, (lc c).1) (rw e (rw ((lr r).0, (lr r).1) refl))
