-- ===== src/Tests/ProvisionTests.antt =====
-- The broker of internal/provisionrpc/rpc.go on one tunnel.
use gremlind.Prelude.{
  ◌+◌, ◌*◌, ◌^◌, ◌≡◌, refl, true, false, ◌&&◌, [], ◌∷◌, none, some, List, Option, ok, leb, arith,
  list_eqb_iff, nat_eq, list_eq,
}
use gremlind.Prelude.Bytes.{Bytes}
use gremlind.Prelude.Int.{pos}
use gremlind.Prelude.Texts.{ascii}
use gremlind.Prelude.Maps.{lookup, has, insert}
use gremlind.Net.{v4, v6, addr_eq}
use gremlind.Net.Predicates.{is_multicast, is_unspecified, is_link_local_unicast, unmap, mapped}
use gremlind.Gre.Names.{is_generated_name, cut_grem}
use gremlind.Gre.Params.{Params}
use gremlind.Session.{Manager, if_name_for}
use gremlind.Provision.Checks.{
  Settings, validate_params, validate_name, validate_grem_name, lower_hex, lower_hex_rest,
}
use gremlind.Provision.Naming.{validate_grem_name-generated, validate_name-if_name_for}
use gremlind.Provision.Broker.{
  ensure, remove, Request, Answers, handle, idle, was_created, fly, on_duty, dispatch,
  handle_ensure, handle_remove, mark_created,
}
use gremlind.Provision.Tracking.{Tracks, handle_all, handle_all-Tracks, live}
use gremlind.Provision.Interleaving.{Warranted, fly-Warranted}
use gremlind.Provision.Race.{asking, late_removal, fly-late_removal}
use gremlind.Tests.PoolTests.{small, server_ip}
use gremlind.Tests.ServerTests.{settings, settings_valid, bob, tunnel}
use gremlind.Tests.SessionTests.{online}

abbrev broker_settings : Settings
broker_settings = record { allow_set = (tunnel, true) ∷ []; gre_local = v4 (10 * 2 ^ 24 + 1) }

abbrev pub tunnel_params : Params
tunnel_params = record {
  name = ascii "grem2a";
  local = v4 (10 * 2 ^ 24 + 1);
  remote = v4 (192 * 2 ^ 24 + 2);
  key = 42;
  seq = false;
  mtu = pos 1476;
  hop_limit = 0;
  inner_local = v4 (10 * 2 ^ 24 + 257);
  inner_peer = v4 (10 * 2 ^ 24 + 258);
  link_local = v6 (0xfe80 * 2 ^ 112 + 1);
  fou_sport = 0;
  fou_dport = 0;
}

params_valid : validate_params broker_settings tunnel_params ≡ ok tt
unfolding validate_params validate_name validate_grem_name lower_hex lower_hex_rest cut_grem
    is_multicast is_unspecified is_link_local_unicast unmap mapped
params_valid = refl

abbrev answers : Answers
answers = record {
  ensured = none;
  removed = some (ascii "busy");
  link_mtu = ok (pos 1500);
  path_mtu = ok (pos 1400);
}

abbrev requests : List (Option Request × Answers)
requests =
    (some (asking ensure tunnel_params), answers)
    ∷ (some (asking remove tunnel_params), answers)
    ∷ (none, answers)
    ∷ []

handle_all-Tracks_example : Tracks broker_settings (handle_all broker_settings idle requests)
handle_all-Tracks_example = handle_all-Tracks broker_settings requests

-- The interface is live, and a failed removal leaves it so.
still_live : live (ascii "grem2a") (handle_all broker_settings idle requests).calls ≡ true
unfolding live handle_all handle idle dispatch handle_ensure handle_remove validate_params
    validate_name validate_grem_name lower_hex lower_hex_rest cut_grem is_multicast is_unspecified
    is_link_local_unicast unmap mapped was_created mark_created has lookup insert
still_live = refl

fly-Warranted_example :
    Warranted broker_settings
      (fly broker_settings on_duty (late_removal tunnel_params)).broker.calls
fly-Warranted_example = fly-Warranted broker_settings (late_removal tunnel_params)

fly-late_removal_example :
    let f = fly broker_settings on_duty (late_removal tunnel_params) in
    (live (ascii "grem2a") f.broker.calls ≡ true)
    × (was_created f.broker (ascii "grem2a") ≡ false)
    × (f.jobs ≡ [])
fly-late_removal_example = fly-late_removal broker_settings tunnel_params params_valid

validate_grem_name-generated_example :
    validate_grem_name (ascii "grem0123456789ab")
    ≡ (is_generated_name (ascii "grem0123456789ab") && leb 16 15)
validate_grem_name-generated_example = validate_grem_name-generated (ascii "grem0123456789ab")

-- The manager of the session tests, with the names of the configuration.
abbrev pinning : Manager
pinning = record online { config = record online.config { if_names = settings.interfaces } }

all_pins_allowed :
    (id name : Bytes)
    → lookup id settings.interfaces ≡ some name
    → has name broker_settings.allow_set ≡ true
unfolding lookup has
all_pins_allowed id name h = ground (arith, h, list_eqb_iff tunnel name)

validate_name-if_name_for_example :
    validate_name broker_settings (if_name_for pinning bob 42) ≡ true
validate_name-if_name_for_example =
    validate_name-if_name_for settings small server_ip pinning broker_settings bob 42 refl refl
      settings_valid refl all_pins_allowed
