-- ===== src/Tests/LinkTests.antt =====
-- internal/gre/link_linux.go on a kernel that has room for one link.
use gremlind.Prelude.{
  ℕ, ◌≡◌, refl, Bool, true, false, List, [], ◌∷◌, ◌++◌, Option, none, some, ok, err, ◌==◌, nat_eq,
  list_eq, arith, if◌then◌else◌,
}
use gremlind.Prelude.Bytes.{Bytes}
use gremlind.Prelude.Texts.{ascii}
use gremlind.Gre.Params.{Params}
use gremlind.Gre.Link.{
  LinkInfo, LinkError, errno, Netlink, Action, find_index, ensure, remove_named_gre, clear,
  finish_ensure, configure, then_do, when, link_index, indexed, unwind, assign_link_local,
  assign_inner, route_peer, host_bits,
}
use gremlind.Gre.Link.Views.{filter, others, Unique, without_index}
use gremlind.Gre.Link.Kernel.{Lawful, Reliable}
use gremlind.Gre.Link.Unwinding.{ensure-unwound}
use gremlind.Gre.Link.Removing.{kept_by, remove_named_gre-kept}
use gremlind.Tests.ProvisionTests.{tunnel_params}

abbrev pub Small : Type 0
Small = Option LinkInfo

abbrev pub links_of : Small → List LinkInfo
links_of none = []
links_of (some l) = l ∷ []

abbrev pub create_small : Bytes → Params → Action Small (Unit {0})
create_small kind p none = (ok tt, some (record { index = 7; name = p.name; kind = kind }))
create_small kind p (some l) = (err (errno 17), some l)

abbrev pub del_small : ℕ → Action Small (Unit {0})
del_small i none = (err (errno 19), none)
del_small i (some l) = if l.index == i then (ok tt, none) else (err (errno 19), some l)

-- Whether an address can be set is given.
abbrev small_kernel : Bool → Netlink Small
small_kernel addressed = record {
  dump = λ w. ok (links_of w);
  create = create_small;
  del = del_small;
  set_addr_gen_mode_none = λ i w. (ok tt, w);
  addr_add = λ i a bits scope w. (if addressed then ok tt else err (errno 99), w);
  set_up = λ i w. (ok tt, w);
  route_add = λ i a bits w. (ok tt, w);
}

pub small-Unique : (w : Small) → Unique (links_of w)
small-Unique none = tt
small-Unique (some l) = (tt, tt)

pub small_created :
    (kind : Bytes) (p : Params) (w : Small) {u : Unit {0}}
    → (create_small kind p w).0 ≡ ok u
    → (i : ℕ) × (links_of (create_small kind p w).1
        ≡ links_of w ++ record { index = i; name = p.name; kind = kind } ∷ [])
small_created kind p none h = (7, refl)
small_created kind p (some l) h = cc

pub small_not_created :
    (kind : Bytes) (p : Params) (w : Small) {e : LinkError}
    → (create_small kind p w).0 ≡ err e
    → links_of (create_small kind p w).1 ≡ links_of w
small_not_created kind p none h = cc
small_not_created kind p (some l) h = refl

pub small_deleted :
    (i : ℕ) (w : Small) {u : Unit {0}}
    → (del_small i w).0 ≡ ok u
    → links_of (del_small i w).1 ≡ without_index i (links_of w)
unfolding filter
small_deleted i none h = cc
small_deleted i (some l) h = ground (arith, h)

pub small_not_deleted :
    (i : ℕ) (w : Small) {e : LinkError}
    → (del_small i w).0 ≡ err e
    → links_of (del_small i w).1 ≡ links_of w
small_not_deleted i none h = refl
small_not_deleted i (some l) h = ground (arith, h)

small_kernel-Lawful : (addressed : Bool) → Lawful (small_kernel addressed) links_of
small_kernel-Lawful addressed = record {
  unique = small-Unique;
  dumped = λ w h. cc;
  created = small_created;
  not_created = small_not_created;
  deleted = small_deleted;
  not_deleted = small_not_deleted;
  gen_mode_links = λ i w. refl;
  addr_links = λ i a bits scope w. refl;
  up_links = λ i w. refl;
  route_links = λ i a bits w. refl;
}

small_del_ok :
    (name : Bytes) (i : ℕ) (w : Small)
    → find_index name (links_of w) ≡ ok i
    → (del_small i w).0 ≡ ok tt
unfolding find_index
small_del_ok name i none h = cc
small_del_ok name i (some l) h = ground (arith, h, nat_eq.decides l.index i)

small_kernel-Reliable : (addressed : Bool) → Reliable (small_kernel addressed) links_of
small_kernel-Reliable addressed = record { dump_ok = λ w. refl; del_ok = small_del_ok }

-- A leftover of the name from before a crash.
abbrev pub leftover : Small
leftover = some (record { index = 3; name = ascii "grem2a"; kind = ascii "gre" })

unaddressed : (ensure (small_kernel false) tunnel_params leftover).0 ≡ err (errno 99)
unfolding ensure clear finish_ensure configure then_do when link_index indexed find_index unwind
    assign_link_local assign_inner route_peer host_bits
unaddressed = refl

ensure-unwound_example :
    links_of (ensure (small_kernel false) tunnel_params leftover).1
    ≡ others (ascii "grem2a") (links_of leftover)
ensure-unwound_example =
    ensure-unwound (small_kernel false) links_of (small_kernel-Lawful false)
      (small_kernel-Reliable false) tunnel_params leftover (errno 99) refl unaddressed

-- A pinned name that an interface of another kind has.
abbrev wireguard : Small
wireguard = some (record { index = 4; name = ascii "wg0"; kind = ascii "wireguard" })

remove_named_gre-kept_example :
    filter
      (kept_by (ascii "wg0" ∷ []))
      (links_of (remove_named_gre (small_kernel true) (ascii "wg0" ∷ []) wireguard).1)
    ≡ filter (kept_by (ascii "wg0" ∷ [])) (links_of wireguard)
remove_named_gre-kept_example =
    remove_named_gre-kept (small_kernel true) links_of (small_kernel-Lawful true) (ascii "wg0" ∷ [])
      wireguard
