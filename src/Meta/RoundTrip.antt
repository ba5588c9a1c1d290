-- ===== src/Meta/RoundTrip.antt =====
-- The topology that a log of commands builds, and the store restored from its snapshot.
use mathlib.Core.Option
use zuul.Shared.{
  ℕ, Option, none, some, List, [], ◌∷◌, ite, ◌≡◌, refl, nat_key, ◌∙◌, ap, ite-elim, subst, sym,
}
use zuul.GoMap.{get, get-put, get-delete, get-empty}
use zuul.GoMap.Copy.{get-load-save, save_unique}
use zuul.Meta.{
  Member, Store, MetaCommand, put_member, delete_member, command, clone_member, change, apply, list,
  run, query, new_store, snapshot, restore, member_query, list_query, every_member, MetaQuery,
  other_query,
}

-- What one command says of a replica, `before` being what stood there.
unfoldable word : ℕ → MetaCommand → Option Member → Option Member
word id (put_member m) before = ite (nat_key.dec m.replica_id id) (some m) before
word id (delete_member j) before = ite (nat_key.dec j id) none before

-- The last command of the log that names the replica decides.
unfoldable pub last_word : List MetaCommand → ℕ → Option Member → Option Member
unfolding word
last_word [] id before = before
last_word (c ∷ cs) id before = last_word cs id (word id c before)

change-word :
    (s : Store) (c : MetaCommand) (id : ℕ)
    → get (apply s (command c)).0.members id ≡ word id c (get s.members id)
unfolding apply change word clone_member
change-word s (put_member m) id = get-put s.members m.replica_id m id
change-word s (delete_member j) id = get-delete s.members j id

-- After any log, what the store has for a replica is what the log's last command on that replica says.
pub run-last_word :
    (cs : List MetaCommand) (s : Store) (id : ℕ)
    → get (run s cs).members id ≡ last_word cs id (get s.members id)
unfolding run last_word
run-last_word [] s id = refl
run-last_word (c ∷ cs) s id =
    run-last_word cs (apply s (command c)).0 id ∙ ap (λ o. last_word cs id o) (change-word s c id)

-- Every member stands under its own replica id.
abbrev pub Keyed : ℕ → Option Member → Type 0
Keyed id none = Unit
Keyed id (some m) = m.replica_id ≡ id

word-Keyed : (id : ℕ) (c : MetaCommand) (o : Option Member) → Keyed id o → Keyed id (word id c o)
unfolding word
word-Keyed id (put_member m) o h =
    ite-elim (Keyed id) (nat_key.dec m.replica_id id) (some m) o (λ e. e) (λ _. h)
word-Keyed id (delete_member j) o h =
    ite-elim (Keyed id) (nat_key.dec j id) none o (λ _. tt) (λ _. h)

last_word-Keyed :
    (cs : List MetaCommand) (id : ℕ) (o : Option Member) → Keyed id o → Keyed id (last_word cs id o)
unfolding last_word
last_word-Keyed [] id o h = h
last_word-Keyed (c ∷ cs) id o h = last_word-Keyed cs id (word id c o) (word-Keyed id c o h)

run-Keyed : (cs : List MetaCommand) (id : ℕ) → Keyed id (get (run new_store cs).members id)
unfolding new_store
run-Keyed cs id =
    subst (Keyed id) (sym (run-last_word cs new_store id))
      (last_word-Keyed cs id _ (subst (Keyed id) (sym (get-empty {V = Member} id)) tt))

-- The same shard, whatever the order of its map.
pub record SameStore (s t : Store) : Type 0 where
  pub revision : t.revision ≡ s.revision
  pub members : (id : ℕ) → get t.members id ≡ get s.members id

copied : (o : Option Member) → Option.map (λ m. clone_member (clone_member m)) o ≡ o
unfolding clone_member
copied none = refl
copied (some m) = refl

-- The store that any log builds, saved and restored over any other store, is the same store: the same
-- revision, and for every replica the same member or none.
pub log-restore :
    (cs : List MetaCommand) (t : Store)
    → SameStore (run new_store cs) (restore t (snapshot (run new_store cs)))
unfolding restore snapshot list
log-restore cs t = record {
  revision = refl;
  members = λ id.
      get-load-save (λ (k : ℕ) m. clone_member m) (λ (m : Member). m.replica_id) clone_member
        (run new_store cs).members (λ k m e. subst (Keyed k) e (run-Keyed cs k)) id
      ∙ copied (get (run new_store cs).members id);
}

-- Two stores that agree on every replica answer every query alike, whatever the order of their maps.
pub query_unique :
    (s t : Store)
    → ((id : ℕ) → get s.members id ≡ get t.members id)
    → (q : MetaQuery) → query s q ≡ query t q
unfolding query list
query_unique s t same (member_query id) = rw (same id) refl
query_unique s t same list_query = ap every_member (save_unique _ s.members t.members same)
query_unique s t same other_query = refl
