-- ===== src/Server/Waiting.antt =====
-- The handlers that change a shard, and the wait of a queued caller: internal/server/server.go and
-- election.go.
use zuul.Shared.{
  ℕ, zero, suc, Bytes, Bool, true, false, Option, none, some, List, [], ◌∷◌, ite, ◌≟◌,
  if◌then◌else◌, ◌&&◌, bytes_key, signed_ltb,
}
use zuul.Auth.Authz.{Authorizer}
use zuul.Fsm.Types.{Event, Command, CommandResult, Outcome, queued, not_acquired}
use zuul.Fsm.Queries.{Status}
use zuul.Cmd
use zuul.Session.{SessionError, Proposed, got, refused}
use zuul.Server.{
  ServerError, backend, wait_ended, unexpected_outcome, Reply, error, status_is, admit_client,
  admit_reader, session_error, holding, not_holding, held_status, try_reply, unlock_reply,
  resign_reply, proclaim_reply,
}

module _ {World : Type 0} (shard : Bytes → ℕ) (policy : Authorizer) (identity : Bytes)
    (ensure : World → Bytes → ℕ → World × Option SessionError)
    (propose : World → ℕ → Command → World × Proposed)
    (read : World → ℕ → Bytes → World × Option Status) (live : World → Bool) where
  abbrev pub retried : (World → World) → World × Proposed → World
  retried again (w, got r) = w
  retried again (w, refused x) = again w

  -- The loop of `cancelWait`, `n` attempts left; `live` says whether its context still is.
  unfoldable pub cancel_attempts : ℕ → World → Bytes → Bytes → World
  cancel_attempts zero w name client = w
  cancel_attempts (suc n) w name client =
      if live w
      then retried (λ w'. cancel_attempts n w' name client)
          (propose w (shard name) (Cmd.cancel name client))
      else w

  -- The wait has ended: `alive` says whether the request's own context still is.
  unfoldable pub give_up : Bytes → ℕ → Bool → Reply
  give_up name deadline alive =
      if signed_ltb 0 deadline && alive then not_holding name else error wait_ended

  abbrev pub timed_out : Bytes → Bytes → ℕ → Bool → World → Option Reply → World × Reply
  timed_out name client deadline alive w (some held) = (w, held)
  timed_out name client deadline alive w none =
      (cancel_attempts 3 w name client, give_up name deadline alive)

  abbrev pub confirmed : (World → World × Reply) → World → Option Reply → World × Reply
  confirmed again w (some held) = (w, held)
  confirmed again w none = again w

  -- `waitForLock` and `waitForLeadership`: the events that the subscription delivers, after which the
  -- context of the wait ends. Each event of another holder, and the end, is followed by a read.
  unfoldable pub wait_for : World → Bytes → Bytes → ℕ → Bool → List Event → World × Reply
  unfolding cancel_attempts give_up
  wait_for w name client deadline alive [] =
      let (w', st) = read w (shard name) name in
      timed_out name client deadline alive w' (held_status name client st)
  wait_for w name client deadline alive (e ∷ es) =
      ite (e.holder ≟ client) (w, holding e.key e.token e.revision)
        (let (w', st) = read w (shard name) name in
          confirmed (λ u. wait_for u name client deadline alive es) w' (held_status name client st))

  -- The request is refused, or goes on.
  abbrev pub admitted : (World → World × Reply) → World → Option ServerError → World × Reply
  admitted next w (some e) = (w, error e)
  admitted next w none = next w

  abbrev pub ensured : (World → World × Reply) → World × Option SessionError → World × Reply
  ensured next (w, some e) = (w, error (session_error e))
  ensured next (w, none) = next w

  abbrev pub proposed : (World → CommandResult → World × Reply) → World × Proposed → World × Reply
  proposed next (w, refused x) = (w, error backend)
  proposed next (w, got r) = next w r

  abbrev pub contended : (World → World × Reply) → World → CommandResult → Outcome → World × Reply
  contended wait w r queued = wait w
  contended wait w r not_acquired = (w, error unexpected_outcome)
  contended wait w r other = (w, try_reply r other)

  -- What `Lock` and `Campaign` do with their command.
  unfoldable pub contend : Command → World → Bytes → Bytes → ℕ → Bool → List Event → World × Reply
  unfolding wait_for admit_client
  contend c w name client deadline alive es =
      admitted
        (λ w1.
          ensured
            (λ w2.
              proposed
                (λ w3 r. contended (λ u. wait_for u name client deadline alive es) w3 r r.outcome)
                (propose w2 (shard name) c))
            (ensure w1 client (shard name)))
        w (admit_client policy identity name client)

  unfoldable pub lock : World → Bytes → Bytes → ℕ → Bool → List Event → World × Reply
  unfolding contend
  lock w name client deadline alive es =
      contend (Cmd.acquire name client false) w name client deadline alive es

  unfoldable pub campaign :
      World → Bytes → Bytes → Option Bytes → ℕ → Bool → List Event → World × Reply
  unfolding contend
  campaign w name client value deadline alive es =
      contend (Cmd.start_campaign name client value) w name client deadline alive es

  unfoldable pub try_lock : World → Bytes → Bytes → World × Reply
  unfolding admit_client try_reply
  try_lock w name client =
      admitted
        (λ w1.
          ensured
            (λ w2.
              proposed (λ w3 r. (w3, try_reply r r.outcome))
                (propose w2 (shard name) (Cmd.acquire name client true)))
            (ensure w1 client (shard name)))
        w (admit_client policy identity name client)

  -- The three that need no lease of their own.
  unfoldable pub unlock : World → Bytes → Bytes → ℕ → World × Reply
  unfolding admit_client unlock_reply
  unlock w name client token =
      admitted
        (λ w1.
          proposed (λ w2 r. (w2, unlock_reply r r.outcome))
            (propose w1 (shard name) (Cmd.release name client token)))
        w (admit_client policy identity name client)

  unfoldable pub resign : World → Bytes → Bytes → ℕ → World × Reply
  unfolding admit_client resign_reply
  resign w name client token =
      admitted
        (λ w1.
          proposed (λ w2 r. (w2, resign_reply r r.outcome))
            (propose w1 (shard name) (Cmd.step_down name client token)))
        w (admit_client policy identity name client)

  unfoldable pub proclaim : World → Bytes → Bytes → ℕ → Option Bytes → World × Reply
  unfolding admit_client proclaim_reply
  proclaim w name client token value =
      admitted
        (λ w1.
          proposed (λ w2 r. (w2, proclaim_reply r r.outcome))
            (propose w1 (shard name) (Cmd.proclaim_value name client token value)))
        w (admit_client policy identity name client)

  abbrev pub status_reply : World × Option Status → World × Reply
  status_reply (w, none) = (w, error backend)
  status_reply (w, some st) = (w, status_is st)

  -- `Status` and `Leader`; `read` is the read of the mode asked for.
  unfoldable pub status : World → Bytes → World × Reply
  unfolding admit_reader
  status w name =
      admitted (λ w1. status_reply (read w1 (shard name) name)) w
        (admit_reader policy identity name)
