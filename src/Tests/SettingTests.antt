-- ===== src/Tests/SettingTests.antt =====
-- `Ensure` of internal/gre/link_linux.go on a kernel that keeps a list of what is set on its one link.
use gremlind.Prelude.{ℕ, ◌≡◌, refl, ◌⊎◌, inl, inr, false, List, [], ◌∷◌, ◌++◌, ok, nat_eq}
use gremlind.Prelude.Texts.{ascii}
use gremlind.Net.{Addr, is_valid}
use gremlind.Gre.Link.{
  LinkInfo, Netlink, find_index, ensure, clear, finish_ensure, configure, then_do, when, link_index,
  indexed, unwind, assign_link_local, assign_inner, route_peer, host_bits,
}
use gremlind.Gre.Link.Views.{others}
use gremlind.Gre.Link.Kernel.{Lawful, Settles}
use gremlind.Gre.Link.Configuring.{own_bits}
use gremlind.Gre.Link.Building.{asked_link, ensure-built}
use gremlind.Tests.ProvisionTests.{tunnel_params}
use gremlind.Tests.LinkTests.{
  Small, links_of, create_small, del_small, small-Unique, small_created, small_not_created,
  small_deleted, small_not_deleted, leftover,
}

data Setting : Type 0 where
  address : ℕ → Addr → ℕ → ℕ → Setting
  up : ℕ → Setting
  route : ℕ → Addr → ℕ → Setting

record Tuned : Type 0 where
  link : Small
  settings : List Setting

abbrev Among : Setting → List Setting → Type 0
Among x [] = ⊥
Among x (y ∷ ys) = (y ≡ x) ⊎ Among x ys

abbrev tuned_links : Tuned → List LinkInfo
tuned_links w = links_of w.link

abbrev set : Setting → Tuned → Tuned
set x w = record w { settings = x ∷ w.settings }

abbrev tuned_kernel : Netlink Tuned
tuned_kernel = record {
  dump = λ w. ok (tuned_links w);
  create = λ kind p w.
      ((create_small kind p w.link).0, record w { link = (create_small kind p w.link).1 });
  del = λ i w. ((del_small i w.link).0, record { link = (del_small i w.link).1; settings = [] });
  set_addr_gen_mode_none = λ i w. (ok tt, w);
  addr_add = λ i a bits scope w. (ok tt, set (address i a bits scope) w);
  set_up = λ i w. (ok tt, set (up i) w);
  route_add = λ i a bits w. (ok tt, set (route i a bits) w);
}

tuned_kernel-Lawful : Lawful tuned_kernel tuned_links
tuned_kernel-Lawful = record {
  unique = λ w. small-Unique w.link;
  dumped = λ w h. cc;
  created = λ kind p w h. small_created kind p w.link h;
  not_created = λ kind p w h. small_not_created kind p w.link h;
  deleted = λ i w h. small_deleted i w.link h;
  not_deleted = λ i w h. small_not_deleted i w.link h;
  gen_mode_links = λ i w. refl;
  addr_links = λ i a bits scope w. refl;
  up_links = λ i w. refl;
  route_links = λ i a bits w. refl;
}

abbrev HasAddr : Tuned → ℕ → Addr → ℕ → ℕ → Type 0
HasAddr w i a bits scope = Among (address i a bits scope) w.settings

abbrev IsUp : Tuned → ℕ → Type 0
IsUp w i = Among (up i) w.settings

abbrev HasRoute : Tuned → ℕ → Addr → ℕ → Type 0
HasRoute w i a bits = Among (route i a bits) w.settings

tuned_kernel-Settles : Settles tuned_kernel HasAddr IsUp HasRoute
tuned_kernel-Settles = record {
  addr_set = λ i a bits scope w h. inl refl;
  addr_keeps = λ i a bits scope w j b n s h. inr h;
  up_set = λ i w h. inl refl;
  up_keeps = λ i w j b n s h. inr h;
  route_set = λ i a bits w h. inl refl;
  route_keeps = λ i a bits w j b n s h. inr h;
  route_keeps_up = λ i a bits w j h. inr h;
}

abbrev untuned : Tuned
untuned = record { link = leftover; settings = [] }

built : (ensure tuned_kernel tunnel_params untuned).0 ≡ ok tt
unfolding ensure clear finish_ensure configure then_do when link_index indexed find_index unwind
    assign_link_local assign_inner route_peer host_bits
built = refl

ensure-built_example :
    let now = (ensure tuned_kernel tunnel_params untuned).1 in
    (i : ℕ) × (tuned_links now
      ≡ others (ascii "grem2a") (tuned_links untuned) ++ asked_link tunnel_params i ∷ [])
    × ((is_valid tunnel_params.link_local ≡ false) ⊎ HasAddr now i tunnel_params.link_local 64 253)
    × HasAddr now i tunnel_params.inner_local (own_bits tunnel_params.inner_local) 0
    × IsUp now i
    × ((is_valid tunnel_params.inner_peer ≡ false)
        ⊎ HasRoute now i tunnel_params.inner_peer (own_bits tunnel_params.inner_peer))
ensure-built_example =
    ensure-built tuned_kernel tuned_links tuned_kernel-Lawful HasAddr IsUp HasRoute
      tuned_kernel-Settles tunnel_params untuned built
