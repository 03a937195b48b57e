-- ===== src/Gre/Link.antt =====
-- internal/gre/link_linux.go over the netlink operations of internal/gre/netlink_linux.go, which are
-- the kernel's: they are fields of `Netlink`, over a state of the kernel that is left open.
pub mod Views
pub mod Kernel
pub mod Ensuring
pub mod Unwinding
pub mod Configuring
pub mod Building
pub mod Removing
use gremlind.Prelude.{
  ℕ, Bool, true, false, ◌||◌, ◌&&◌, not, List, [], ◌∷◌, ◌++◌, Option, none, some, Result, ok, err,
  ◌==◌, nat_eq, list_eq, if◌then◌else◌, ◌≡◌,
}
use gremlind.Prelude.Bytes.{Bytes}
use gremlind.Prelude.Maps.{Map, has, insert}
use gremlind.Net.{Addr, addr_eq, is_valid, is4, is6}
use gremlind.Gre.Params.{Params}

-- `linkInfo`
pub record LinkInfo : Type 0 where
  pub index : ℕ
  pub name : Bytes
  pub kind : Bytes

-- "gre" and "ip6gre"
abbrev pub kind_gre : Bytes
kind_gre = b'g' ∷ b'r' ∷ b'e' ∷ []

abbrev pub kind_ip6gre : Bytes
kind_ip6gre = b'i' ∷ b'p' ∷ b'6' ∷ b'g' ∷ b'r' ∷ b'e' ∷ []

-- An errno, or where a step found nothing.
pub data LinkError : Type 0 where
  families no_device : LinkError
  errno : ℕ → LinkError

abbrev pub Action : Type 0 → Type 0 → Type 0
Action W A = W → Result LinkError A × W

-- The operations on the kernel's state. `dump` reads it.
pub record Netlink (W : Type 0) : Type 0 where
  pub dump : W → Result LinkError (List LinkInfo)
  pub create : Bytes → Params → Action W (Unit {0})
  pub del : ℕ → Action W (Unit {0})
  pub set_addr_gen_mode_none : ℕ → Action W (Unit {0})
  pub addr_add : ℕ → Addr → ℕ → ℕ → Action W (Unit {0})
  pub set_up : ℕ → Action W (Unit {0})
  pub route_add : ℕ → Addr → ℕ → Action W (Unit {0})

-- The loop of `linkIndex`.
unfoldable pub find_index : Bytes → List LinkInfo → Result LinkError ℕ
find_index name [] = err no_device
find_index name (l ∷ ls) = if l.name == name then ok l.index else find_index name ls

unfoldable pub indexed : Bytes → Result LinkError (List LinkInfo) → Result LinkError ℕ
unfolding find_index
indexed name (err e) = err e
indexed name (ok links) = find_index name links

-- `hostBits`
unfoldable pub host_bits : Addr → ℕ
host_bits a = if is4 a then 32 else 128

-- The kind that `createGRE` asks for.
unfoldable pub kind_of : Params → Bytes
kind_of p = if is6 p.local then kind_ip6gre else kind_gre

-- `isGREKind`
unfoldable pub is_gre_kind : Bytes → Bool
is_gre_kind kind = kind == kind_gre || kind == kind_ip6gre

abbrev pub scope_link : ℕ
scope_link = 253

abbrev pub different_family : Addr → Addr → Bool
different_family a b = if is6 a then not (is6 b) else is6 b

-- `strings.HasPrefix`
unfoldable pub has_prefix : Bytes → Bytes → Bool
has_prefix [] s = true
has_prefix (c ∷ prefix) [] = false
has_prefix (c ∷ prefix) (d ∷ s) = c == d && has_prefix prefix s

-- The set of the listed names.
unfoldable pub want_set : List Bytes → Map Bytes Bool
want_set [] = []
want_set (n ∷ names) = insert n true (want_set names)

module _ {W : Type 0} where
  -- `if err := first; err != nil { return err }`
  unfoldable pub then_do : Action W (Unit {0}) → Action W (Unit {0}) → Action W (Unit {0})
  then_do first next w = elim (first w).0 [ err e ↦ (err e, (first w).1) | ok _ ↦ next (first w).1 ]

  unfoldable pub when : Bool → Action W (Unit {0}) → Action W (Unit {0})
  when test act w = if test then act w else (ok tt, w)

module _ {W : Type 0} (k : Netlink W) where
  -- `linkIndex`
  unfoldable pub link_index : Bytes → W → Result LinkError ℕ
  unfolding indexed
  link_index name w = indexed name (k.dump w)

  -- The link-local address, where there is one: the kernel's own goes first.
  unfoldable pub assign_link_local : ℕ → Params → Action W (Unit {0})
  unfolding then_do when
  assign_link_local idx p =
      when (is_valid p.link_local)
        (then_do (k.set_addr_gen_mode_none idx) (k.addr_add idx p.link_local 64 scope_link))

  unfoldable pub assign_inner : ℕ → Params → Action W (Unit {0})
  unfolding host_bits
  assign_inner idx p = k.addr_add idx p.inner_local (host_bits p.inner_local) 0

  unfoldable pub route_peer : ℕ → Params → Action W (Unit {0})
  unfolding when host_bits
  route_peer idx p =
      when (is_valid p.inner_peer) (k.route_add idx p.inner_peer (host_bits p.inner_peer))

  -- `Ensure` from the addresses on, before `cleanup`.
  unfoldable pub configure : ℕ → Params → Action W (Unit {0})
  unfolding then_do assign_link_local assign_inner route_peer
  configure idx p =
      then_do (assign_link_local idx p)
        (then_do (assign_inner idx p) (then_do (k.set_up idx) (route_peer idx p)))

  -- A leftover link of that name goes; whether it went is not asked.
  unfoldable pub clear : Bytes → W → W
  unfolding link_index
  clear name w = elim (link_index name w) [ err _ ↦ w | ok idx ↦ (k.del idx w).1 ]

  -- `cleanup` on an error.
  unfoldable pub unwind : ℕ → Result LinkError (Unit {0}) × W → Result LinkError (Unit {0}) × W
  unwind idx (r, w) = elim r [ err e ↦ (err e, (k.del idx w).1) | ok _ ↦ (ok tt, w) ]

  -- `Ensure` behind the creation.
  unfoldable pub finish_ensure : Params → W → Result LinkError (Unit {0}) × W
  unfolding link_index configure unwind
  finish_ensure p w = elim (link_index p.name w) [
    | err e ↦ (err e, w)
    | ok idx ↦ unwind idx (configure idx p w)
  ]

  -- `Ensure`
  unfoldable pub ensure : Params → Action W (Unit {0})
  unfolding clear kind_of finish_ensure then_do
  ensure p w =
      if different_family p.local p.remote
      then (err families, w)
      else then_do (k.create (kind_of p) p) (finish_ensure p) (clear p.name w)

  -- `Remove`: an error of the look-up counts as a missing interface.
  unfoldable pub remove : Bytes → Action W (Unit {0})
  unfolding link_index
  remove name w = elim (link_index name w) [ err _ ↦ (ok tt, w) | ok idx ↦ k.del idx w ]

  -- The loop over the dumped links: those that the test takes are deleted, up to the first error.
  -- `removed` are the names so far, the last one first.
  unfoldable pub remove_links :
      (LinkInfo → Bool) → List LinkInfo → List Bytes → W → (List Bytes × Option LinkError) × W
  remove_links wanted [] removed w = ((removed, none), w)
  remove_links wanted (l ∷ ls) removed w =
      let skipped = remove_links wanted ls removed w in
      let deleted = remove_links wanted ls (l.name ∷ removed) (k.del l.index w).1 in
      if not (wanted l) then skipped else elim (k.del l.index w).0 [
        | err e ↦ ((removed, some e), (k.del l.index w).1)
        | ok _ ↦ deleted
      ]

  unfoldable pub remove_dumped :
      (LinkInfo → Bool) → Result LinkError (List LinkInfo) → W → (List Bytes × Option LinkError) × W
  unfolding remove_links
  remove_dumped wanted (err e) w = (([], some e), w)
  remove_dumped wanted (ok links) w = remove_links wanted links [] w

  -- `RemovePrefix`
  unfoldable pub remove_prefix : Bytes → W → (List Bytes × Option LinkError) × W
  unfolding remove_dumped has_prefix
  remove_prefix prefix w = remove_dumped (λ l. has_prefix prefix l.name) (k.dump w) w

  -- `RemoveNamedGRE`
  unfoldable pub remove_named_gre : List Bytes → W → (List Bytes × Option LinkError) × W
  unfolding remove_dumped want_set is_gre_kind
  remove_named_gre [] w = (([], none), w)
  remove_named_gre (n ∷ names) w =
      remove_dumped (λ l. has l.name (want_set (n ∷ names)) && is_gre_kind l.kind) (k.dump w) w
