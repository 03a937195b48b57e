-- ===== src/Provision/Checks.antt =====
-- `validateGremName`, `validateName` and `validateParams` of internal/provisionrpc/rpc.go.
use gremlind.Prelude.{
  Bool, true, false, ◌&&◌, ◌||◌, not, [], ◌∷◌, Option, none, some, Result, ok, err, length, ltb,
  leb, ◌==◌, nat_eq, list_eq, if◌then◌else◌, ◌>>◌,
}
use gremlind.Prelude.Bytes.{Bytes}
use gremlind.Prelude.Int.{pos, ltb_ℤ}
use gremlind.Prelude.Maps.{Map, has}
use gremlind.Net.{Addr, addr_eq, is_valid, is6}
use gremlind.Net.Predicates.{is_multicast, is_unspecified, is_link_local_unicast}
use gremlind.Gre.Names.{valid_name, grem, cut_grem}
use gremlind.Gre.Params.{Params}
use gremlind.Gre.Link.{different_family}

-- The loop over the runes behind the prefix.
unfoldable pub lower_hex : Bytes → Bool
lower_hex [] = true
lower_hex (r ∷ rest) =
    if leb b'0' r && leb r b'9' || leb b'a' r && leb r b'f' then lower_hex rest else false

unfoldable pub lower_hex_rest : Option Bytes → Bool
unfolding lower_hex
lower_hex_rest none = false
lower_hex_rest (some rest) = lower_hex rest

-- `validateGremName`
unfoldable pub validate_grem_name : Bytes → Bool
unfolding lower_hex_rest cut_grem
validate_grem_name name =
    if name == grem [] || name == grem (b'0' ∷ [])
    then true
    else if leb (length name) 4 || ltb 15 (length name)
    then false
    else lower_hex_rest (cut_grem name)

-- The settings of the broker that a request does not change: the set of `AllowNames`, and the outer
-- address that tunnels must have, the zero value for any.
pub record Settings : Type 0 where
  pub allow_set : Map Bytes Bool
  pub gre_local : Addr

-- `validateName`
unfoldable pub validate_name : Settings → Bytes → Bool
unfolding validate_grem_name
validate_name s name = validate_grem_name name || has name s.allow_set && valid_name name

pub data Error : Type 0 where
  bad_request unknown_operation invalid_name not_created outer_endpoints outer_not_allowed
        inner_local inner_peer inner_families link_local bad_mtu bad_local bad_remote :
      Error
  backend : Bytes → Error

-- `if test { return err }`
abbrev pub refuse_if : Bool → Error → Result Error (Unit {0})
refuse_if test e = if test then err e else ok tt

abbrev pub unusable : Addr → Bool
unusable a = is_multicast a || is_unspecified a

-- `validateParams`
unfoldable pub validate_params : Settings → Params → Result Error (Unit {0})
unfolding validate_name
validate_params s p =
    refuse_if (not (validate_name s p.name)) invalid_name
    >> refuse_if
        (not (is_valid p.local) || not (is_valid p.remote) || different_family p.local p.remote)
        outer_endpoints
    >> refuse_if (unusable p.local || unusable p.remote) outer_endpoints
    >> refuse_if (is_valid s.gre_local && not (p.local == s.gre_local)) outer_not_allowed
    >> refuse_if (not (is_valid p.inner_local) || unusable p.inner_local) inner_local
    >> refuse_if (is_valid p.inner_peer && unusable p.inner_peer) inner_peer
    >> refuse_if (is_valid p.inner_peer && different_family p.inner_local p.inner_peer)
        inner_families
    >> refuse_if
        (is_valid p.link_local
          && (not (is6 p.link_local) || not (is_link_local_unicast p.link_local)))
        link_local
    >> refuse_if (ltb_ℤ p.mtu (pos 576) || ltb_ℤ (pos 65535) p.mtu) bad_mtu
