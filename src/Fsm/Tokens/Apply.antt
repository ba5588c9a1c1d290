-- ===== src/Fsm/Tokens/Apply.antt =====
-- Fencing tokens over every command and every log.
use zuul.Shared.{
  ℕ, ◌+◌, ◌≤◌, ◌<◌, Bytes, Bool, Option, none, some, List, [], ◌∷◌, All, ◌≡◌, ◌⊎◌, arith, bytes_key,
  u64_mod,
}
use zuul.GoMap.{get, get-empty}
use zuul.Fsm.Types.{
  Fsm, Lock, new, Command, acquire_lock, campaign, release_lock, resign, cancel_wait, proclaim,
  lease_grant, lease_keep_alive, lease_revoke, lease_expire, unset,
}
use zuul.Fsm.Apply.{dispatch, apply, run}
use zuul.Fsm.WellFormed.{Wf}
use zuul.Fsm.WellFormed.Apply.{IsNamed, apply-Wf, new-Wf, log-Wf}
use zuul.Fsm.Tokens.Defs.{Moved, Advance, Named, Wf-Named, Moved-trans, Moved-refl, Advance-refl}
use zuul.Fsm.Tokens.Locks.{acquire-Advance, release-Advance, cancel_wait-Advance, proclaim-Advance}
use zuul.Fsm.Tokens.Leases.{
  found_cost, lease_grant-Advance, lease_keep_alive-Advance, lease_revoke-Advance,
  lease_expire-Advance,
}

-- How many tokens a command can hand out: one, or one for each key of the lease that it drops.
abbrev pub cost : Fsm → Command → ℕ
cost f (acquire_lock _ _ _) = 1
cost f (campaign _ _ _) = 1
cost f (release_lock _ _ _) = 1
cost f (resign _ _ _) = 1
cost f (lease_revoke client) = found_cost (get f.leases client)
cost f (lease_expire client _) = found_cost (get f.leases client)
cost f _ = 0

dispatch-Advance :
    (f : Fsm) (c : Command)
    → Named f
    → f.seq + cost f c < u64_mod
    → Advance (cost f c) f (dispatch f c).0
unfolding dispatch
dispatch-Advance f (acquire_lock name client try) n room =
    acquire-Advance f name client none try room n
dispatch-Advance f (campaign name client value) n room =
    acquire-Advance f name client value _ room n
dispatch-Advance f (release_lock name client token) n room =
    release-Advance f name client token room
dispatch-Advance f (resign name client token) n room = release-Advance f name client token room
dispatch-Advance f (cancel_wait name client) n room = cancel_wait-Advance f name client n
dispatch-Advance f (proclaim name client token value) n room =
    proclaim-Advance f name client token value n
dispatch-Advance f (lease_grant client ttl now) n room = lease_grant-Advance f client ttl now
dispatch-Advance f (lease_keep_alive client now) n room = lease_keep_alive-Advance f client now
dispatch-Advance f (lease_revoke client) n room = lease_revoke-Advance f client n room
dispatch-Advance f (lease_expire client now) n room = lease_expire-Advance f client n room now
dispatch-Advance f unset n room = Advance-refl f

-- On a well-formed shard whose counter does not wrap, a command hands out at most `cost` tokens, and
-- whoever holds a key afterwards either held it before under the same token or has a token above the
-- counter, so above every token handed out before.
pub apply-Advance :
    (f : Fsm) (c : Command)
    → Wf [] f
    → f.seq + cost f c < u64_mod
    → Advance (cost f c) f (apply f (some c)).0
unfolding apply
apply-Advance f c h room =
    let a = dispatch-Advance _ c (Wf-Named h) room in
    record { grows = a.grows; at_most = a.at_most; moved = a.moved }

-- The counter does not wrap while a log is applied.
abbrev pub HasRoom : Fsm → List Command → Type 0
HasRoom f [] = Unit
HasRoom f (c ∷ cs) = (f.seq + cost f c < u64_mod) × HasRoom (apply f (some c)).0 cs

run-grows :
    (f : Fsm) (cs : List Command) → Wf [] f → All IsNamed cs → HasRoom f cs → f.seq ≤ (run f cs).seq
unfolding run
run-grows f [] h n room = omega arith
run-grows f (c ∷ cs) h n room =
    let g = (apply f (some c)).0 in
    omega
      (arith, (apply-Advance f c h room.0).grows, run-grows g cs (apply-Wf f c n.0 h) n.1 room.1)

run-Moved :
    (f : Fsm) (cs : List Command)
    → Wf [] f
    → All IsNamed cs
    → HasRoom f cs
    → (n : Bytes) → Moved f.seq (run f cs).seq (get f.locks n) (get (run f cs).locks n)
unfolding run
run-Moved f [] h n room k = Moved-refl f.seq f.seq (get f.locks k)
run-Moved f (c ∷ cs) h n room k =
    let g = (apply f (some c)).0 in
    let a = apply-Advance f c h room.0 in
    let w = apply-Wf f c n.0 h in
    Moved-trans f.seq g.seq (run g cs).seq (get f.locks k) (get g.locks k) (get (run g cs).locks k)
      a.grows (run-grows g cs w n.1 room.1) (a.moved k) (run-Moved g cs w n.1 room.1 k)

-- Tokens do not pass the counter.
abbrev pub TokenIn : ℕ → Option Lock → Type 0
TokenIn s none = Unit
TokenIn s (some lk) = lk.token ≤ s

Moved-TokenIn : (s t : ℕ) (o p : Option Lock) → s ≤ t → TokenIn s o → Moved s t o p → TokenIn t p
Moved-TokenIn s t o none le k m = tt
Moved-TokenIn s t none (some b) le k m = m.1
Moved-TokenIn s t (some a) (some b) le k m = ground arith

new-TokenIn :
    (notifier : Bool) (n : Bytes) → TokenIn (new notifier).seq (get (new notifier).locks n)
unfolding new
new-TokenIn notifier n = rw get-empty tt

run-TokenIn :
    (f : Fsm) (cs : List Command)
    → Wf [] f
    → All IsNamed cs
    → HasRoom f cs
    → (n : Bytes) → TokenIn f.seq (get f.locks n)
    → TokenIn (run f cs).seq (get (run f cs).locks n)
run-TokenIn f cs h n room k t =
    Moved-TokenIn f.seq (run f cs).seq (get f.locks k) (get (run f cs).locks k)
      (run-grows f cs h n room) t (run-Moved f cs h n room k)

-- A key's fencing token never falls: take a shard that has applied one log from empty, and then
-- another; no command grants a lease to the empty client id, and the counter does not wrap. A lock
-- found on a key before the second log and after it has the same holder and token, or afterwards a
-- strictly larger token, also if the key was free in between.
pub fencing :
    (notifier : Bool) (past future : List Command) (n : Bytes) (before after : Lock)
    → All IsNamed past
    → All IsNamed future
    → HasRoom (new notifier) past
    → HasRoom (run (new notifier) past) future
    → get (run (new notifier) past).locks n ≡ some before
    → get (run (run (new notifier) past) future).locks n ≡ some after
    → ((before.holder ≡ after.holder) × (before.token ≡ after.token)) ⊎ (before.token < after.token)
fencing notifier past future n before after named named' room room' p q =
    let f = run (new notifier) past in
    let bound =
      run-TokenIn (new notifier) past (new-Wf notifier) named room n (new-TokenIn notifier n) in
    ground (arith, bound, run-Moved f future (log-Wf notifier past named) named' room' n)
