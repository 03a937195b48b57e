-- ===== src/Pool/Defs.antt =====
-- The state and the methods of internal/ippool/pool.go. The mutex makes each method one step, and a
-- method that fails returns before it writes.
use gremlind.Prelude.{
  ℕ, zero, suc, Bool, true, ◌||◌, not, List, [], ◌∷◌, Option, none, some, Result, ok, err, length,
  if◌then◌else◌,
}
use gremlind.Prelude.Maps.{Map, insert, delete, has}
use gremlind.Net.{Addr, addr_eq, is_valid, next, Prefix, prefix_is_valid, masked, contains}
use gremlind.Net.Blocks.{size}

pub record Pool : Type 0 where
  pub prefix : Prefix
  pub reserved : Map Addr Bool
  pub pinned : Map Addr Bool
  pub used : Map Addr Bool

-- The errors: their texts are not modelled.
pub data Error : Type 0 where
  invalid_prefix outside is_reserved unavailable exhausted : Error

unfoldable pub reserve_all : List Addr → Map Addr Bool → Map Addr Bool
reserve_all [] m = m
reserve_all (r ∷ rs) m = reserve_all rs (if is_valid r then insert r true m else m)

-- `New`
unfoldable pub create : Prefix → List Addr → Result Error Pool
unfolding reserve_all
create prefix reserved =
    let p = masked prefix in
    if prefix_is_valid p
    then ok (record { prefix = p; reserved = reserve_all reserved []; pinned = []; used = [] })
    else err invalid_prefix

-- `Pin`
unfoldable pub pin : Pool → Addr → Result Error Pool
pin p a =
    if not (contains p.prefix a)
    then err outside
    else if has a p.reserved
    then err is_reserved
    else ok (record p { pinned = insert a true p.pinned })

-- The test by which `Allocate` passes over an address.
unfoldable pub taken : Pool → Addr → Bool
taken p a = has a p.reserved || has a p.pinned || has a p.used

-- The loop of `Allocate`, on fuel.
unfoldable pub scan : ℕ → Pool → Addr → Option Addr
scan zero p a = none
scan (suc fuel) p a =
    let rest = scan fuel p (next a) in
    if contains p.prefix a then (if taken p a then rest else some a) else none

-- The body of the loop where it returns, and the return behind it.
unfoldable pub claim : Pool → Option Addr → Result Error (Pool × Addr)
claim p none = err exhausted
claim p (some a) = ok (record p { used = insert a true p.used }, a)

-- `Allocate`. The walk starts at offset 1, so a round for each address of the prefix is enough.
unfoldable pub allocate : Pool → Result Error (Pool × Addr)
unfolding claim
allocate p = claim p (scan (size p.prefix) p (next p.prefix.addr))

-- `AllocateSpecific`
unfoldable pub allocate_specific : Pool → Addr → Result Error Pool
allocate_specific p a =
    if not (contains p.prefix a)
    then err outside
    else if has a p.reserved || has a p.used
    then err unavailable
    else ok (record p { used = insert a true p.used })

-- `Release`
unfoldable pub release : Pool → Addr → Pool
release p a = record p { used = delete a p.used }

-- `InUse`
unfoldable pub in_use : Pool → ℕ
in_use p = length p.used
