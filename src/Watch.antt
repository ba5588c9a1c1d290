-- ===== src/Watch.antt =====
-- The watch hub: internal/lock/watch/watch.go. A `*Sub` is a number, under which `objects` has what it
-- points to; the hash of a key is a parameter.
pub mod Latest
use zuul.Shared.{
  ℕ, zero, suc, ◌+◌, ◌%◌, Bytes, Bool, true, false, Option, none, some, List, [], ◌∷◌, ◌++◌, ite,
  ◌≟◌, if◌then◌else◌, bytes_key, nat_key,
}
use zuul.GoMap.{GoMap, get, put, delete, keys}
use zuul.Fsm.Types.{Event}

abbrev pub num_stripes : ℕ
num_stripes = 16

-- `signalled` says that the one-slot channel is full.
pub record Sub : Type 0 where
  pub key : Bytes
  pub identity : Bytes
  pub track : Bool
  pub signalled : Bool
  pub last : Event

-- subs map[string]map[*Sub]struct{}
abbrev pub Stripe : Type 0
Stripe = GoMap Bytes (GoMap ℕ (Unit {0}))

pub record Hub : Type 0 where
  pub stripes : ℕ → Stripe
  pub objects : GoMap ℕ Sub
  pub next_id : ℕ

unfoldable pub new_hub : Hub
new_hub = record { stripes = λ i. []; objects = []; next_id = 0 }

pub record SubArgs : Type 0 where
  pub args_key : Bytes
  pub args_identity : Bytes
  pub args_track : Bool

abbrev pub no_event : Event
no_event = record { key = []; holder = []; token = 0; value = none; revision = 0 }

pub record Observation : Type 0 where
  pub seen_key : Bytes
  pub seen_identity : Bytes

-- The latest event is kept, and a full channel stays full.
unfoldable pub signal : Event → Sub → Sub
signal e s = record s { last = e; signalled = true }

abbrev pub signal_found : Event → ℕ → GoMap ℕ Sub → Option Sub → GoMap ℕ Sub
unfolding signal
signal_found e i objects none = objects
signal_found e i objects (some s) = put objects i (signal e s)

-- The loop of `Notify` over the subscribers.
unfoldable pub signal_all : List ℕ → Event → GoMap ℕ Sub → GoMap ℕ Sub
unfolding signal_found
signal_all [] e objects = objects
signal_all (i ∷ is) e objects = signal_all is e (signal_found e i objects (get objects i))

abbrev pub subs_of : Option (GoMap ℕ (Unit {0})) → GoMap ℕ (Unit {0})
subs_of none = []
subs_of (some m) = m

-- One stripe of the hub is replaced.
abbrev pub with_stripe : Hub → ℕ → Stripe → Hub
with_stripe h i st = record h { stripes = λ j. ite (nat_key.dec i j) st (h.stripes j) }

module _ (hash : Bytes → ℕ) where
  unfoldable pub stripe_index : Bytes → ℕ
  stripe_index key = hash key % num_stripes

  -- The subscribers of a key.
  unfoldable pub members : Hub → Bytes → GoMap ℕ (Unit {0})
  unfolding stripe_index
  members h key = subs_of (get (h.stripes (stripe_index key)) key)

  unfoldable pub notify : Hub → Event → Hub
  unfolding signal_all members
  notify h e = record h { objects = signal_all (keys (members h e.key)) e h.objects }

  -- none where the source panics
  unfoldable pub subscribe : Hub → SubArgs → Option (Hub × ℕ)
  unfolding stripe_index members
  subscribe h args =
      let i = h.next_id in
      let s : Sub = record {
        key = args.args_key;
        identity = args.args_identity;
        track = args.args_track;
        signalled = false;
        last = no_event;
      } in
      let n = stripe_index args.args_key in
      let st = put (h.stripes n) args.args_key (put (members h args.args_key) i tt) in
      ite (args.args_key ≟ []) none
        (some (record (with_stripe h n st) { objects = put h.objects i s; next_id = i + 1 }, i))

  abbrev pub taken : Hub → ℕ → Option Sub → Option (Event × Hub)
  taken h i none = none
  taken h i (some s) =
      if s.signalled
      then some (s.last, record h { objects = put h.objects i (record s { signalled = false }) })
      else none

  -- `Next` where an event waits; none where it would block.
  unfoldable pub next_event : Hub → ℕ → Option (Event × Hub)
  next_event h i = taken h i (get h.objects i)

  abbrev pub left : Hub → ℕ → ℕ → Bytes → Option (GoMap ℕ (Unit {0})) → Hub
  left h n i key none = h
  left h n i key (some m) = emptied (delete m i)
    where
      emptied : GoMap ℕ (Unit {0}) → Hub
      emptied [] = with_stripe h n (delete (h.stripes n) key)
      emptied rest = with_stripe h n (put (h.stripes n) key rest)

  abbrev pub close_found : Hub → ℕ → Option Sub → Hub
  close_found h i none = h
  close_found h i (some s) =
      let n = stripe_index s.key in left h n i s.key (get (h.stripes n) s.key)

  -- The subscription leaves the hub; the object stays its owner's.
  unfoldable pub close_sub : Hub → ℕ → Hub
  close_sub h i = close_found h i (get h.objects i)

  abbrev pub observed : Bytes → Option Sub → List Observation → List Observation
  observed k none rest = rest
  observed k (some s) rest =
      if s.track then record { seen_key = k; seen_identity = s.identity } ∷ rest else rest

  unfoldable pub observe_subs : Hub → Bytes → List ℕ → List Observation
  observe_subs h k [] = []
  observe_subs h k (i ∷ is) = observed k (get h.objects i) (observe_subs h k is)

  -- The loop of `collect` over the keys of a stripe.
  unfoldable pub collect : Hub → Bytes → Stripe → List Observation
  unfolding observe_subs
  collect h key [] = []
  collect h key ((k, m) ∷ st) =
      let rest = collect h key st in
      let here = observe_subs h k (keys m) ++ rest in ite (key ≟ []) here (ite (k ≟ key) here rest)

  -- The loop over the stripes, `n` of them left.
  unfoldable pub collect_stripes : Hub → ℕ → List Observation
  unfolding collect
  collect_stripes h zero = []
  collect_stripes h (suc n) = collect_stripes h n ++ collect h [] (h.stripes n)

  unfoldable pub observers : Hub → Bytes → List Observation
  unfolding collect collect_stripes stripe_index
  observers h key =
      ite (key ≟ []) (collect_stripes h num_stripes) (collect h key (h.stripes (stripe_index key)))
