-- ===== src/Examples.antt =====
-- Concrete shards, requests and keys on which the theorems are applied.
mod Locking
mod Serving
mod Access
mod Sweeping
mod Relaying
mod Admin
mod Clients
use zuul.Shared.{ℕ, Bytes, Bool, true, false, Option, none, some, List, [], ◌∷◌, codes, All, arith}
use zuul.Fsm.Types.{Fsm, Command, acquire_lock, release_lock, lease_grant, new}
use zuul.Fsm.Apply.{run}
use zuul.Fsm.WellFormed.{Wf}
use zuul.Fsm.WellFormed.Apply.{IsNamed, log-Wf}

abbrev pub key : Bytes
key = codes "/ann/lock"

abbrev pub ann : Bytes
ann = codes "ann"

abbrev pub bob : Bytes
bob = codes "bob"

-- Ann holds the key under token 1, Bob waits for it.
abbrev pub past : List Command
past =
    lease_grant ann 30000 1000
    ∷ lease_grant bob 30000 1000
    ∷ acquire_lock key ann false
    ∷ acquire_lock key bob false
    ∷ []

-- Ann's release hands the key to Bob.
abbrev pub future : List Command
future = release_lock key ann 1 ∷ []

abbrev pub shard : Fsm
shard = run (new true) past

pub past-IsNamed : All IsNamed past
past-IsNamed = ((λ e. ground (arith, e)), ((λ e. ground (arith, e)), (tt, (tt, tt))))

pub shard-Wf : Wf [] shard
shard-Wf = log-Wf true past past-IsNamed
