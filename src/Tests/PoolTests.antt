-- ===== src/Tests/PoolTests.antt =====
-- internal/ippool/pool.go on 10.0.0.0/29, whose first host is the server's.
use gremlind.Prelude.{ℕ, ◌≡◌, refl, ◌+◌, true, false, ◌∷◌, [], ok, arith}
use gremlind.Prelude.Maps.{has, has-nil, insert, lookup}
use gremlind.Net.{Addr, addr_eq, v4, Prefix, masked, prefix_is_valid, contains, next}
use gremlind.Pool
use gremlind.Pool.{Pool, create, pin, allocate, allocate_specific, release, in_use}
use gremlind.Pool.Allocation.{Allocates, allocate-Allocates}
use gremlind.Pool.History.{
  IsSound, allocates, pins, releases, run, create-IsSound, run-create-IsSound,
}

abbrev pub net : ℕ
net = 167772160

abbrev pub small : Prefix
small = record { addr = v4 net; bits = 29 }

abbrev pub server_ip : Addr
server_ip = v4 (net + 1)

abbrev pub fresh_pool : Pool
fresh_pool = record { prefix = small; reserved = (server_ip, true) ∷ []; pinned = []; used = [] }

pub created : create small (server_ip ∷ []) ≡ ok fresh_pool
unfolding create prefix_is_valid masked insert
created = refl

pub fresh_pool-IsSound : IsSound fresh_pool
fresh_pool-IsSound = create-IsSound small (server_ip ∷ []) fresh_pool (omega arith) created

pub fresh_pool_unused : (a : Addr) → has a fresh_pool.used ≡ false
fresh_pool_unused a = has-nil a

first_free :
    allocate fresh_pool ≡ ok (record fresh_pool { used = (v4 (net + 2), true) ∷ [] }, v4 (net + 2))
unfolding allocate Pool.scan Pool.taken has insert lookup contains next
first_free = refl

allocate-Allocates_example : Allocates fresh_pool (allocate fresh_pool)
allocate-Allocates_example = allocate-Allocates fresh_pool fresh_pool-IsSound.block

abbrev claimed_pool : Pool
claimed_pool = record fresh_pool { used = (v4 (net + 5), true) ∷ [] }

claims_five : allocate_specific fresh_pool (v4 (net + 5)) ≡ ok claimed_pool
unfolding allocate_specific has insert lookup contains
claims_five = refl

run-create-IsSound_example :
    IsSound
      (run fresh_pool (allocates ∷ pins (v4 (net + 3)) ∷ allocates ∷ releases (v4 (net + 2)) ∷ []))
run-create-IsSound_example =
    run-create-IsSound small (server_ip ∷ []) fresh_pool
      (allocates ∷ pins (v4 (net + 3)) ∷ allocates ∷ releases (v4 (net + 2)) ∷ []) (omega arith)
      created
