-- ===== src/Sockets.antt =====
-- cloud_backup_server.hpp: what the main thread uses of the operating system and of a connection, and
-- maps from file descriptors.
use cloud_backup_system.Common.{
  ℕ, Bool, Option, none, some, List, [], ◌∷◌, Bytes, ◌==◌, if◌then◌else◌,
}

-- What the main thread does with a connection.
pub record Clients : Type 1 where
  pub Client : Type 0
  pub make : Bytes → Client
  pub identifier : Client → Bytes
  pub receive : Bytes → Client → Client
  pub response : Client → Bytes
  pub set_response : Bytes → Client → Client
  pub close : Client → Client
  pub is_closed : Client → Bool

-- A call of `read` or `write`: it would block, was interrupted, failed, or gave a result.
pub data Result (A : Type 0) : Type 0 where
  again : Result A
  interrupted : Result A
  broken : Result A
  done : A → Result A

-- The results of the calls on a socket one after the other; `read` of nothing is the end of the
-- stream. `epoll_ctl` and `fcntl` say whether they worked.
pub record Os : Type 1 where
  pub World : Type 0
  pub read : ℕ → World → List (Result Bytes) × World
  pub write : ℕ → Bytes → World → List (Result ℕ) × World
  pub set_non_block : ℕ → World → Bool × World
  pub epoll_add : ℕ → World → Bool × World
  pub epoll_mod : ℕ → Bool → World → World
  pub epoll_del : ℕ → World → World
  pub close : ℕ → World → World
  pub accept : World → List (Result ℕ) × World

-- What `epoll_wait` says of a descriptor.
pub record Ready : Type 0 where
  pub fd : ℕ
  pub readable : Bool
  pub writable : Bool

-- A map from file descriptors.
module _ {V : Type 0} where
  abbrev pub at_fd : ℕ → List (ℕ × V) → Option V
  at_fd k [] = none
  at_fd k ((j, v) ∷ m) = if j == k then some v else at_fd k m

  abbrev pub put_fd : ℕ → V → List (ℕ × V) → List (ℕ × V)
  put_fd k v [] = (k, v) ∷ []
  put_fd k v ((j, w) ∷ m) = if j == k then (j, v) ∷ m else (j, w) ∷ put_fd k v m

  abbrev pub erase_fd : ℕ → List (ℕ × V) → List (ℕ × V)
  erase_fd k [] = []
  erase_fd k ((j, w) ∷ m) = let rest = erase_fd k m in if j == k then rest else (j, w) ∷ rest
