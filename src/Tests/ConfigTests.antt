-- ===== src/Tests/ConfigTests.antt =====
-- `Load` of internal/config/config.go on an empty file but for MSS clamping, modes, and `Overhead` of
-- internal/gre/link_linux.go.
use gremlind.Prelude.{ℕ, ◌≤◌, ◌≡◌, refl, ◌⊎◌, false, true, none, some, [], ◌∷◌, ok, err, All, arith}
use gremlind.Prelude.Int.{pos, ltb_ℤ}
use gremlind.Prelude.Texts.{ascii}
use gremlind.Config.{empty}
use gremlind.Config.Clamp
use gremlind.Config.Clamp.{MssClamp, validate_mss_clamp}
use gremlind.Health
use gremlind.Health.{HealthCheck, is_zero}
use gremlind.MssClamp.Rules.{protocol_specs}
use gremlind.MssClamp.Bounds.{Fitting}
use gremlind.Config.Loading.{
  FileConfig, gre_key_enabled, gre_seq_enabled, apply_defaults, validate, validate_rest,
  check_rules, admin_mode, permissions, parse_octal, octal_onto, load, seconds, short_timeout,
  fou_with_broker,
}
use gremlind.Config.Loaded.{load-Checked}
use gremlind.Net.{v4}
use gremlind.Gre.Overhead.{overhead, overhead_with_options, overhead_with_fou}

abbrev blank_clamp : MssClamp
blank_clamp = record {
  enabled = true;
  backend = [];
  direction = [];
  mss_mode = [];
  mss = pos 0;
  mss4 = pos 0;
  mss6 = pos 0;
  nft_family = [];
  nft_table = [];
  nft_chain = [];
  nft_manage_table = false;
  iptables_chain = [];
  monitor = false;
}

abbrev blank_health : HealthCheck
blank_health = record {
  enabled = false;
  interval = pos 0;
  timeout = pos 0;
  failures = pos 0;
  actions = [];
  script = [];
  target = empty;
  packet_size = pos 0;
  packet_sizes = [];
  inter_packet_delay = pos 0;
  large_packet_delay = pos 0;
  large_packet_threshold = pos 0;
  command = [];
  bind_interface = false;
}

abbrev blank : FileConfig
blank = record {
  listen = empty;
  gre_local = empty;
  inner_pool = empty;
  mtu = pos 0;
  gre_key = none;
  gre_seq = none;
  admin_socket_mode = [];
  netlink_socket = [];
  fou_port = 0;
  max_pending_handshakes = pos 0;
  max_pending_per_ip = pos 0;
  keepalive_interval = pos 0;
  keepalive_timeout = pos 0;
  lease_ttl = pos 0;
  mss_clamp = blank_clamp;
  health_check = blank_health;
  client_iface = [];
  source_rules = [];
  source_fallback = [];
}

abbrev settled : FileConfig
settled = apply_defaults blank

blank_loads : load blank ≡ ok settled
unfolding load apply_defaults validate validate_rest check_rules admin_mode permissions parse_octal
    octal_onto validate_mss_clamp Clamp.with_defaults Health.with_defaults is_zero
blank_loads = refl

load-Checked_example :
    (apply_defaults settled ≡ settled)
    × (ltb_ℤ (pos 0) settled.keepalive_interval ≡ true)
    × (ltb_ℤ settled.keepalive_interval settled.keepalive_timeout ≡ true)
    × ((settled.fou_port ≡ 0) ⊎ (settled.netlink_socket ≡ []))
    × ((m : ℕ) × (admin_mode settled ≡ some m) × (m ≤ 511))
    × ((settled.mss_clamp.enabled ≡ false) ⊎ All (Fitting settled.mss_clamp 1400) protocol_specs)
load-Checked_example = load-Checked blank settled 1400 blank_loads (omega arith)

default_mode : admin_mode settled ≡ some 384
unfolding apply_defaults admin_mode permissions parse_octal octal_onto
default_mode = refl

mode_beyond : permissions (parse_octal (ascii "1777")) ≡ none
unfolding permissions parse_octal octal_onto
mode_beyond = refl

mode_of_words : parse_octal (ascii "0680") ≡ none
unfolding parse_octal octal_onto
mode_of_words = refl

impatient : load (record blank { keepalive_interval = seconds 60 }) ≡ err short_timeout
unfolding load apply_defaults validate is_zero Clamp.with_defaults Health.with_defaults
impatient = refl

both_data_planes :
    load (record blank { fou_port = 5555; netlink_socket = ascii "/run/n" }) ≡ err fou_with_broker
unfolding load apply_defaults validate is_zero Clamp.with_defaults Health.with_defaults
both_data_planes = refl

keys_by_default : (gre_key_enabled settled ≡ true) × (gre_seq_enabled settled ≡ false)
unfolding gre_key_enabled gre_seq_enabled apply_defaults
keys_by_default = (refl, refl)

-- The header with a key, with a key and a number, and with neither, in front of IPv4.
overheads :
    (overhead (v4 1) [] ≡ 28)
    × (overhead_with_options (v4 1) true true ≡ 32)
    × (overhead (v4 1) (false ∷ []) ≡ 24)
unfolding overhead overhead_with_options overhead_with_fou
overheads = (refl, refl, refl)
