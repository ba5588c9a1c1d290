-- ===== src/Consensus/Log.antt =====
-- The adapter runs the state machine over the log, and its snapshots are the state machine's.
use zuul.Shared.{ℕ, Bool, All, none, some, List, [], ◌∷◌, map, ◌≡◌, refl, ap, ◌∙◌, bytes_key}
use zuul.Fsm.Types.{
  Fsm, Command, CommandResult, unset, new, Applied, ok, err, acquire_lock, release_lock,
  cancel_wait, lease_grant, lease_keep_alive, lease_revoke, lease_expire, campaign, proclaim,
  resign,
}
use zuul.Fsm.Apply.{apply, run, dispatch}
use zuul.Fsm.WellFormed.Apply.{IsNamed, log-Wf}
use zuul.Fsm.Values.{HasPlain, PublishesPlain, run-HasPlain, new-HasPlain}
use zuul.Fsm.Snapshot.{Snapshot, snapshot, restore}
use zuul.Fsm.Snapshot.RoundTrip.{SameShard, restore-snapshot}
use zuul.Consensus.{
  Codec, Entry, updated, Updated, before, outcome_code, update, applied, save_snapshot,
  recover_from_snapshot,
}

-- The marshallers marshal every message, and give back what was marshalled.
abbrev pub Lossless : {M W : Type 0} → Codec M W → (M → W) → Type 0
Lossless {M} {W} c bytes =
    (m : M) → (c.marshal m ≡ some (bytes m)) × (c.unmarshal (bytes m) ≡ some m)

-- The entry of a command at an index.
abbrev pub entry : {C R : Type 0} → (Command → C) → ℕ × Command → Entry C R
entry {C} {R} bytes (i, c) = record { index = i; cmd = bytes c; entry_result = none }

-- The message has one of the command's fields set.
abbrev pub HasField : Command → Type 0
HasField unset = ⊥
HasField c = Unit

abbrev answered : {C R : Type 0} → Entry C R → (CommandResult → R) → Applied → Entry C R
answered e rb (ok r) = record e { entry_result = some (outcome_code r.outcome, rb r) }
answered e rb (err x) = e

-- The entries of a log with what the state machine answers to each.
abbrev pub answers :
    {C R : Type 0}
    → (Command → C)
    → (CommandResult → R)
    → Fsm
    → List (ℕ × Command)
    → List (Entry C R)
answers cb rb f [] = []
answers cb rb f (ic ∷ cs) =
    answered (entry cb ic) rb (apply f (some ic.1)).1 ∷ answers cb rb (apply f (some ic.1)).0 cs

abbrev pub AllSet : List (ℕ × Command) → Type 0
AllSet [] = Unit
AllSet (ic ∷ cs) = HasField ic.1 × AllSet cs

abbrev pub log_of : List (ℕ × Command) → List Command
log_of [] = []
log_of (ic ∷ cs) = ic.1 ∷ log_of cs

-- A command with a field set is never an error.
pub apply-ok :
    (f : Fsm) (c : Command) → HasField c → (r : CommandResult) × ((apply f (some c)).1 ≡ ok r)
unfolding apply dispatch
apply-ok f (acquire_lock n c t) h = (_, refl)
apply-ok f (release_lock n c t) h = (_, refl)
apply-ok f (cancel_wait n c) h = (_, refl)
apply-ok f (lease_grant c t n) h = (_, refl)
apply-ok f (lease_keep_alive c n) h = (_, refl)
apply-ok f (lease_revoke c) h = (_, refl)
apply-ok f (lease_expire c n) h = (_, refl)
apply-ok f (campaign n c v) h = (_, refl)
apply-ok f (proclaim n c t v) h = (_, refl)
apply-ok f (resign n c t) h = (_, refl)
apply-ok f unset h = elim h [ ]

-- Each command of the log is what is read of its bytes.
abbrev pub AllRead : {C : Type 0} → Codec Command C → (Command → C) → List (ℕ × Command) → Type 0
AllRead commands cb [] = Unit
AllRead commands cb (ic ∷ log) =
    (commands.unmarshal (cb ic.1) ≡ some ic.1) × AllRead commands cb log

Lossless-AllRead :
    {C : Type 0} (commands : Codec Command C) (cb : Command → C) (log : List (ℕ × Command))
    → Lossless commands cb
    → AllRead commands cb log
Lossless-AllRead commands cb [] lc = tt
Lossless-AllRead commands cb (ic ∷ log) lc = ((lc ic.1).1, Lossless-AllRead commands cb log lc)

-- The snapshot of each shard without an empty value is marshalled, and read back as it. An empty value would be
-- read back as nil.
abbrev pub KeepsPlain : {W : Type 0} → Codec Snapshot W → (Snapshot → W) → Type 0
KeepsPlain snapshots sb =
    (f : Fsm)
    → HasPlain f
    → (snapshots.marshal (snapshot f) ≡ some (sb (snapshot f)))
      × (snapshots.unmarshal (sb (snapshot f)) ≡ some (snapshot f))

module _ {C R : Type 0} (commands : Codec Command C) (results : Codec CommandResult R)
    (cb : Command → C) (rb : CommandResult → R)
    (written : (r : CommandResult) → results.marshal r ≡ some (rb r)) where
  applied-ok :
      (e : Entry C R) (rest : Fsm → Fsm × Updated C R) (g : Fsm) (a : Applied) (r : CommandResult)
      → a ≡ ok r
      → applied commands results e rest (g, a) ≡ ((rest g).0, before (answered e rb a) (rest g).1)
  applied-ok e rest g a r q = rw q (rw (written r) refl)

  update-run_read :
      (f : Fsm) (log : List (ℕ × Command))
      → AllSet log
      → AllRead commands cb log
      → update commands results f (map (entry cb) log)
        ≡ (run f (log_of log), updated (answers cb rb f log))
  unfolding update run
  update-run_read f [] h k = refl
  update-run_read f (ic ∷ log) h k =
      let (r, e) = apply-ok f ic.1 h.0 in
      rw k.0 (
        applied-ok (entry cb ic) (λ g. update commands results g (map (entry cb) log)) _ _ r e
        ∙ ap
            (λ (p : Fsm × Updated C R).
              (p.0, before (answered (entry cb ic) rb (apply f (some ic.1)).1) p.1))
            (update-run_read (apply f (some ic.1)).0 log h.1 k.1))

  -- A node that has applied a log to the empty shard, each command of which has a field set, is read from its bytes,
  -- publishes no empty value and grants no lease to the empty client id: if marshalling keeps the
  -- snapshots of shards without an empty value, its snapshot is written, and recovering from what
  -- was written, over any shard, gives the shard that the state machine makes of the log.
  pub recover-log :
      {W : Type 0} (snapshots : Codec Snapshot W) (sb : Snapshot → W) (notifier : Bool)
      (log : List (ℕ × Command)) (g : Fsm)
      → KeepsPlain snapshots sb
      → AllSet log
      → AllRead commands cb log
      → All PublishesPlain (log_of log)
      → All IsNamed (log_of log)
      → let f = (update commands results (new notifier) (map (entry cb) log)).0 in
        (b : W) × (h : Fsm) × (save_snapshot snapshots f ≡ some b)
        × (recover_from_snapshot snapshots g b ≡ some h)
        × SameShard (run (new notifier) (log_of log)) h
  unfolding save_snapshot recover_from_snapshot
  recover-log snapshots sb notifier log g ls h k p n =
      let f = run (new notifier) (log_of log) in
      let kept = ls f (run-HasPlain (new notifier) (log_of log) p (new-HasPlain notifier)) in
      rw (update-run_read (new notifier) log h k) (
        sb (snapshot f),
        restore g (snapshot f),
        kept.0,
        rw kept.1 refl,
        restore-snapshot f (log-Wf notifier (log_of log) n) g,
      )

module _ {C R : Type 0} (commands : Codec Command C) (results : Codec CommandResult R)
    (cb : Command → C) (rb : CommandResult → R) (lc : Lossless commands cb)
    (lr : Lossless results rb) where
  -- With lossless marshallers, a batch of marshalled commands, each with a field set, is applied whole and without an error: the
  -- shard becomes what `Apply` makes of the commands one by one, and each entry records the outcome and
  -- the marshalled result of its own command.
  pub update-run :
      (f : Fsm) (log : List (ℕ × Command))
      → AllSet log
      → update commands results f (map (entry cb) log)
        ≡ (run f (log_of log), updated (answers cb rb f log))
  update-run f log h =
      update-run_read commands results cb rb (λ r. (lr r).0) f log h
        (Lossless-AllRead commands cb log lc)
