-- ===== src/Forward/Pool.antt =====
-- The cache of connections to the peers: internal/raft/forward/pool.go.
use zuul.Shared.{
  Bytes, Bool, true, false, Option, none, some, List, [], ◌∷◌, if◌then◌else◌, bytes_key,
}
use zuul.GoMap.{GoMap, get, put, delete}

-- `shut` lists the connections that have been closed, the last one first.
pub record Pool (Conn : Type 0) : Type 0 where
  pub conns : GoMap Bytes Conn
  pub closed : Bool
  pub shut : List Conn

module _ {Conn : Type 0} where
  unfoldable pub new_pool : Pool Conn
  new_pool = record { conns = []; closed = false; shut = [] }

  abbrev pub dialed : Pool Conn → Bytes → Option Conn → Pool Conn × Option Conn
  dialed p addr none = (p, none)
  dialed p addr (some cc) = (record p { conns = put p.conns addr cc }, some cc)

  abbrev pub cached : Pool Conn → Bytes → Option Conn → Option Conn → Pool Conn × Option Conn
  cached p addr fresh none = dialed p addr fresh
  cached p addr fresh (some cc) = (p, some cc)

  -- `client`, `dial` being grpc.NewClient; none is an error.
  unfoldable pub client : (Bytes → Option Conn) → Pool Conn → Bytes → Pool Conn × Option Conn
  client dial p addr = if p.closed then (p, none) else cached p addr (dial addr) (get p.conns addr)

  abbrev pub evicted : Pool Conn → Bytes → Option Conn → Pool Conn
  evicted p addr none = record p { conns = delete p.conns addr }
  evicted p addr (some cc) = record p { conns = delete p.conns addr; shut = cc ∷ p.shut }

  unfoldable pub evict : Pool Conn → Bytes → Pool Conn
  evict p addr = evicted p addr (get p.conns addr)

  unfoldable pub shut_all : GoMap Bytes Conn → List Conn → List Conn
  shut_all [] done = done
  shut_all ((addr, cc) ∷ rest) done = shut_all rest (cc ∷ done)

  unfoldable pub close : Pool Conn → Pool Conn
  unfolding shut_all
  close p = record { conns = []; closed = true; shut = shut_all p.conns p.shut }
