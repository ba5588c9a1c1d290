-- ===== src/Watch/Latest.antt =====
-- A subscriber sees the latest event of its key.
use mathlib.Core.Option
use zuul.Shared.{
  ℕ, Bytes, true, false, Option, none, some, List, [], ◌∷◌, ite, ◌≟◌, if◌then◌else◌, ◌≡◌, ◌≢◌, refl,
  ap, ◌∙◌, arith, bytes_key, nat_key, Option-cases, inl, inr, if_neg, if_pos, is_some,
}
use zuul.GoMap.{GoMap, get, has, put, keys, contains, contains-keys, get-put}
use zuul.Fsm.Types.{Event}
use zuul.Watch.{
  Hub, Sub, SubArgs, signal, signal_found, signal_all, members, notify, subscribe, next_event,
  stripe_index, subs_of,
}

signal_all-get :
    (is : List ℕ) (e : Event) (m : GoMap ℕ Sub) (j : ℕ)
    → get (signal_all is e m) j
      ≡ (if contains is j then Option.map (signal e) (get m j) else get m j)
unfolding signal_all signal_found signal
signal_all-get [] e m j = refl
signal_all-get (i ∷ is) e m j = elim (Option-cases (get m i)) [
  | inl q ↦ rw q (ground (arith, q, signal_all-get is e m j))
  | inr (s, q) ↦
      rw q (
        ground (arith, q, signal_all-get is e (put m i (signal e s)) j, get-put m i (signal e s) j))
]

get-put_same : {V : Type 0} (m : GoMap ℕ V) (i : ℕ) (v : V) → get (put m i v) i ≡ some v
get-put_same m i v = get-put m i v i ∙ if_pos (nat_key.dec i i) refl _ _

-- The event that waits for the subscriber.
abbrev pub waiting : Option Sub → Option Event
waiting none = none
waiting (some s) = if s.signalled then some s.last else none

-- The last event of the key, or what there was before.
abbrev pub latest : Bytes → Option Event → List Event → Option Event
latest key before [] = before
latest key before (e ∷ es) = latest key (ite (e.key ≟ key) (some e) before) es

module _ (hash : Bytes → ℕ) where
  -- The state machine applies its events one after the other.
  abbrev pub notify_all : Hub → List Event → Hub
  notify_all h [] = h
  notify_all h (e ∷ es) = notify_all (notify hash h e) es

  -- The number of the next subscription is nobody's.
  abbrev pub IsFresh : Hub → Type 0
  IsFresh h = (k : Bytes) → has (members hash h k) h.next_id ≡ false

  -- The subscription stands in the hub under its key, and no other.
  record Registered (h : Hub) (i : ℕ) (key : Bytes) : Type 0 where
    object : has h.objects i ≡ true
    entry : (k : Bytes) → has (members hash h k) i ≡ ite (k ≟ key) true false

  notify-objects :
      (h : Hub) (e : Event) (i : ℕ)
      → get (notify hash h e).objects i ≡ (
          if has (members hash h e.key) i
          then Option.map (signal e) (get h.objects i)
          else get h.objects i)
  unfolding notify
  notify-objects h e i =
      signal_all-get (keys (members hash h e.key)) e h.objects i
      ∙ rw (contains-keys (members hash h e.key) i) refl

  notify-Registered :
      (h : Hub) (e : Event) (i : ℕ) (key : Bytes)
      → Registered h i key
      → Registered (notify hash h e) i key
  unfolding notify members
  notify-Registered h e i key r = record {
    object = rw (notify-objects h e i) (ground (arith, r.object));
    entry = r.entry;
  }

  notify-waiting :
      (h : Hub) (e : Event) (i : ℕ) (key : Bytes)
      → Registered h i key
      → waiting (get (notify hash h e).objects i)
        ≡ ite (e.key ≟ key) (some e) (waiting (get h.objects i))
  unfolding signal
  notify-waiting h e i key r = rw (notify-objects h e i, r.entry e.key) (ground (arith, r.object))

  notify_all-waiting :
      (h : Hub) (es : List Event) (i : ℕ) (key : Bytes)
      → Registered h i key
      → waiting (get (notify_all h es).objects i) ≡ latest key (waiting (get h.objects i)) es
  notify_all-waiting h [] i key r = refl
  notify_all-waiting h (e ∷ es) i key r =
      notify_all-waiting (notify hash h e) es i key (notify-Registered h e i key r)
      ∙ ap (λ o. latest key o es) (notify-waiting h e i key r)

  next_event-waiting :
      (h : Hub) (i : ℕ)
      → Option.map (λ (p : Event × Hub). p.0) (next_event hash h i) ≡ waiting (get h.objects i)
  unfolding next_event
  next_event-waiting h i = ground arith

  -- The subscribers of a key once number `i` has joined those of `a`.
  subscribed-entry :
      (h : Hub) (a k : Bytes)
      → IsFresh h
      → has
          (subs_of (
            get
              (ite
                (nat_key.dec (stripe_index hash a) (stripe_index hash k))
                (put (h.stripes (stripe_index hash a)) a (put (members hash h a) h.next_id tt))
                (h.stripes (stripe_index hash k)))
              k))
          h.next_id
        ≡ ite (k ≟ a) true false
  unfolding members
  subscribed-entry h a k f = ground (
    arith,
    f k,
    get-put (h.stripes (stripe_index hash a)) a (put (members hash h a) h.next_id tt) k,
    get-put_same (members hash h a) h.next_id tt,
  )

  -- What `subscribe` answers, and the hub that it leaves.
  subscribe-Registered :
      (h : Hub) (args : SubArgs)
      → IsFresh h
      → args.args_key ≢ []
      → (g : Hub) × (subscribe hash h args ≡ some (g, h.next_id))
        × Registered g h.next_id args.args_key
        × (waiting (get g.objects h.next_id) ≡ none)
  unfolding subscribe members
  subscribe-Registered h args f n = (
    _,
    if_neg (args.args_key ≟ []) n _ _,
    record {
      object = ap is_some (get-put_same h.objects h.next_id _);
      entry = λ k. subscribed-entry h args.args_key k f;
    },
    ap waiting (get-put_same h.objects h.next_id _),
  )

  -- A subscription to a key, made in a hub where its number is nobody's, then any events: what `Next`
  -- gives is the last of those events on that key, or it blocks if there is none; events on other keys
  -- do not matter.
  pub next_event-latest :
      (h : Hub) (args : SubArgs) (es : List Event)
      → IsFresh h
      → args.args_key ≢ []
      → (g : Hub) × (subscribe hash h args ≡ some (g, h.next_id))
        × (Option.map (λ (p : Event × Hub). p.0) (next_event hash (notify_all g es) h.next_id)
            ≡ latest args.args_key none es)
  next_event-latest h args es f n =
      let (g, q, r, w) = subscribe-Registered h args f n in
      (
        g,
        q,
        next_event-waiting (notify_all g es) h.next_id
            ∙ (notify_all-waiting g es h.next_id args.args_key r
                ∙ ap (λ o. latest args.args_key o es) w),
      )
