-- ===== src/Gre/Link/Kernel.antt =====
-- What internal/gre/link_linux.go relies on of rtnetlink.
use gremlind.Prelude.{ℕ, ◌≡◌, List, [], ◌∷◌, ◌++◌, ok, err, nat_eq}
use gremlind.Prelude.Bytes.{Bytes}
use gremlind.Net.{Addr}
use gremlind.Gre.Params.{Params}
use gremlind.Gre.Link.{LinkInfo, LinkError, Netlink, find_index}
use gremlind.Gre.Link.Views.{Unique, without_index}

-- A dump lists the kernel's links, RTM_NEWLINK with NLM_F_EXCL adds one link or none, RTM_DELLINK
-- takes the one of that index, and the settings of a link add and take none.
pub record Lawful {W : Type 0} (k : Netlink W) (links : W → List LinkInfo) : Type 0 where
  pub unique : (w : W) → Unique (links w)
  pub dumped : (w : W) {ls : List LinkInfo} → k.dump w ≡ ok ls → ls ≡ links w
  pub created :
      (kind : Bytes) (p : Params) (w : W) {u : Unit {0}}
      → (k.create kind p w).0 ≡ ok u
      → (i : ℕ) × (links (k.create kind p w).1
          ≡ links w ++ record { index = i; name = p.name; kind = kind } ∷ [])
  pub not_created :
      (kind : Bytes) (p : Params) (w : W) {e : LinkError}
      → (k.create kind p w).0 ≡ err e
      → links (k.create kind p w).1 ≡ links w
  pub deleted :
      (i : ℕ) (w : W) {u : Unit {0}}
      → (k.del i w).0 ≡ ok u
      → links (k.del i w).1 ≡ without_index i (links w)
  pub not_deleted :
      (i : ℕ) (w : W) {e : LinkError} → (k.del i w).0 ≡ err e → links (k.del i w).1 ≡ links w
  pub gen_mode_links : (i : ℕ) (w : W) → links (k.set_addr_gen_mode_none i w).1 ≡ links w
  pub addr_links :
      (i : ℕ) (a : Addr) (bits scope : ℕ) (w : W) → links (k.addr_add i a bits scope w).1 ≡ links w
  pub up_links : (i : ℕ) (w : W) → links (k.set_up i w).1 ≡ links w
  pub route_links :
      (i : ℕ) (a : Addr) (bits : ℕ) (w : W) → links (k.route_add i a bits w).1 ≡ links w

-- A dump does not fail, nor does the deletion of a link that is there.
pub record Reliable {W : Type 0} (k : Netlink W) (links : W → List LinkInfo) : Type 0 where
  pub dump_ok : (w : W) → k.dump w ≡ ok (links w)
  pub del_ok :
      (name : Bytes) (i : ℕ) (w : W) → find_index name (links w) ≡ ok i → (k.del i w).0 ≡ ok tt

-- The addresses, states and routes of links: a setting that succeeds holds behind it, and stays while
-- the link is set up further.
pub record Settles {W : Type 0} (k : Netlink W) (HasAddr : W → ℕ → Addr → ℕ → ℕ → Type 0)
    (IsUp : W → ℕ → Type 0) (HasRoute : W → ℕ → Addr → ℕ → Type 0) : Type 0 where
  pub addr_set :
      (i : ℕ) (a : Addr) (bits scope : ℕ) (w : W) {u : Unit {0}}
      → (k.addr_add i a bits scope w).0 ≡ ok u
      → HasAddr (k.addr_add i a bits scope w).1 i a bits scope
  pub addr_keeps :
      (i : ℕ) (a : Addr) (bits scope : ℕ) (w : W) (j : ℕ) (b : Addr) (n s : ℕ)
      → HasAddr w j b n s
      → HasAddr (k.addr_add i a bits scope w).1 j b n s
  pub up_set : (i : ℕ) (w : W) {u : Unit {0}} → (k.set_up i w).0 ≡ ok u → IsUp (k.set_up i w).1 i
  pub up_keeps :
      (i : ℕ) (w : W) (j : ℕ) (b : Addr) (n s : ℕ)
      → HasAddr w j b n s
      → HasAddr (k.set_up i w).1 j b n s
  pub route_set :
      (i : ℕ) (a : Addr) (bits : ℕ) (w : W) {u : Unit {0}}
      → (k.route_add i a bits w).0 ≡ ok u
      → HasRoute (k.route_add i a bits w).1 i a bits
  pub route_keeps :
      (i : ℕ) (a : Addr) (bits : ℕ) (w : W) (j : ℕ) (b : Addr) (n s : ℕ)
      → HasAddr w j b n s
      → HasAddr (k.route_add i a bits w).1 j b n s
  pub route_keeps_up :
      (i : ℕ) (a : Addr) (bits : ℕ) (w : W) (j : ℕ) → IsUp w j → IsUp (k.route_add i a bits w).1 j
