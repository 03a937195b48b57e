-- ===== src/Config/Loading.antt =====
-- `ApplyDefaults`, `validate`, `AdminMode` and `Load` of internal/config/config.go, once the YAML is
-- read. Texts that net/netip or net.SplitHostPort parses stand as what they parse to. Times are
-- nanoseconds.
use gremlind.Prelude.{
  ℕ, ◌+◌, ◌-◌, ◌*◌, Bool, true, false, ◌&&◌, ◌||◌, not, List, [], ◌∷◌, Option, none, some, Result,
  ok, err, ltb, leb, ◌==◌, nat_eq, list_eq, if◌then◌else◌, ◌>>◌, ◌>>=◌,
}
use gremlind.Prelude.Bytes.{Bytes}
use gremlind.Prelude.Int.{ℤ, pos, ltb_ℤ, leb_ℤ}
use gremlind.Prelude.Texts.{ascii}
use gremlind.Net.{Addr, Prefix}
use gremlind.Config.{Text, empty, ill_formed, parsed}
use gremlind.Config.Clamp
use gremlind.Config.Clamp.{MssClamp, or_text, ClampError, validate_mss_clamp}
use gremlind.Health
use gremlind.Health.{HealthCheck, is_zero, Invalid, validate_health_check}

-- `SourceRule`: a prefix that does not parse is `none`.
pub record SourceRule : Type 0 where
  pub family : Bytes
  pub match_server_subnets : List (Option Prefix)
  pub include_subnets : List (Option Prefix)
  pub exclude_subnets : List (Option Prefix)

-- The fields of `Config` that `ApplyDefaults` and `validate` touch.
pub record FileConfig : Type 0 where
  pub listen : Text Bytes
  pub gre_local : Text Addr
  pub inner_pool : Text Prefix
  pub mtu : ℤ
  pub gre_key : Option Bool
  pub gre_seq : Option Bool
  pub admin_socket_mode : Bytes
  pub netlink_socket : Bytes
  pub fou_port : ℕ
  pub max_pending_handshakes : ℤ
  pub max_pending_per_ip : ℤ
  pub keepalive_interval : ℤ
  pub keepalive_timeout : ℤ
  pub lease_ttl : ℤ
  pub mss_clamp : MssClamp
  pub health_check : HealthCheck
  pub client_iface : Bytes
  pub source_rules : List SourceRule
  pub source_fallback : Bytes

abbrev pub seconds : ℕ → ℤ
seconds n = pos (n * 1000000000)

abbrev pub or_time : ℤ → ℤ → ℤ
or_time time default = if is_zero time then default else time

abbrev pub default_listen : Bytes
default_listen = ascii "[::]:4747"

abbrev pub default_iface : Bytes
default_iface = ascii "grem0"

abbrev pub or_listen : Text Bytes → Text Bytes
or_listen empty = parsed default_listen
or_listen ill_formed = ill_formed
or_listen (parsed host_port) = parsed host_port

-- Whether `ApplyDefaults` lets gremlind manage the nftables table.
abbrev pub own_table : MssClamp → Bool
own_table m =
    m.enabled
    && ((m.backend == [] || m.backend == ascii "nftables")
        && (m.nft_table == [] && m.nft_chain == []))

abbrev pub clamp_defaults : MssClamp → MssClamp
clamp_defaults m =
    Clamp.with_defaults
      (record m { nft_manage_table = if own_table m then true else m.nft_manage_table })

-- `ApplyDefaults`
unfoldable pub apply_defaults : FileConfig → FileConfig
unfolding Clamp.with_defaults Health.with_defaults is_zero
apply_defaults c = record c {
  listen = or_listen c.listen;
  keepalive_interval = or_time c.keepalive_interval (seconds 15);
  keepalive_timeout = or_time c.keepalive_timeout (seconds 45);
  lease_ttl = or_time c.lease_ttl (seconds 86400);
  admin_socket_mode = or_text c.admin_socket_mode (ascii "0600");
  client_iface = or_text c.client_iface default_iface;
  mss_clamp = clamp_defaults c.mss_clamp;
  health_check = Health.with_defaults c.health_check;
  source_fallback = or_text c.source_fallback (ascii "fail");
}

-- `GREKeyEnabled`
unfoldable pub gre_key_enabled : FileConfig → Bool
gre_key_enabled c = elim c.gre_key [ none ↦ true | some set ↦ set ]

-- `GRESeqEnabled`
unfoldable pub gre_seq_enabled : FileConfig → Bool
gre_seq_enabled c = elim c.gre_seq [ none ↦ false | some set ↦ set ]

-- The digits of `strconv.ParseUint` in base 8, behind a value that is read. A text is not cut off at
-- 32 bits: such a value is an error there, and beyond 0777 here.
unfoldable pub octal_onto : ℕ → Bytes → Option ℕ
octal_onto value [] = some value
octal_onto value (c ∷ s) =
    let rest = octal_onto (value * 8 + (c - b'0')) s in
    if leb b'0' c && leb c b'7' then rest else none

unfoldable pub parse_octal : Bytes → Option ℕ
unfolding octal_onto
parse_octal [] = none
parse_octal (c ∷ s) = octal_onto 0 (c ∷ s)

-- The permission bits of a mode.
unfoldable pub permissions : Option ℕ → Option ℕ
permissions none = none
permissions (some mode) = if ltb 511 mode then none else some mode

-- `AdminMode`
unfoldable pub admin_mode : FileConfig → Option ℕ
unfolding parse_octal permissions
admin_mode c = permissions (parse_octal c.admin_socket_mode)

pub data LoadError : Type 0 where
  bad_listen fou_with_broker bad_mtu bad_pending bad_interval bad_timeout short_timeout bad_ttl
        bad_mode bad_pool bad_local bad_fallback bad_family bad_prefix :
      LoadError
  bad_clamp : ClampError → LoadError
  bad_health : Invalid → LoadError

abbrev pub refuse : Bool → LoadError → Result LoadError (Unit {0})
refuse true e = err e
refuse false e = ok tt

abbrev pub refused_by :
    {E : Type 0} → (E → LoadError) → Result E (Unit {0}) → Result LoadError (Unit {0})
refused_by wrap (ok u) = ok tt
refused_by wrap (err e) = err (wrap e)

abbrev pub if_enabled : Bool → Result LoadError (Unit {0}) → Result LoadError (Unit {0})
if_enabled true check = check
if_enabled false check = ok tt

abbrev pub unparsed : {A : Type 0} → Text A → Bool
unparsed empty = false
unparsed ill_formed = true
unparsed (parsed a) = false

abbrev pub no_host_port : Text Bytes → Bool
no_host_port empty = true
no_host_port ill_formed = true
no_host_port (parsed host_port) = false

abbrev pub some_unparsed : List (Option Prefix) → Bool
some_unparsed [] = false
some_unparsed (none ∷ prefixes) = true
some_unparsed (some p ∷ prefixes) = some_unparsed prefixes

abbrev pub unknown_family : Bytes → Bool
unknown_family f = not (f == [] || (f == ascii "any" || (f == ascii "ipv4" || f == ascii "ipv6")))

-- The loop over the source rules.
unfoldable pub check_rules : List SourceRule → Result LoadError (Unit {0})
check_rules [] = ok tt
check_rules (r ∷ rules) =
    refuse (unknown_family r.family) bad_family
    >> refuse
        (some_unparsed r.match_server_subnets
          || (some_unparsed r.include_subnets || some_unparsed r.exclude_subnets))
        bad_prefix
    >> check_rules rules

abbrev pub no_mode : Option ℕ → Bool
no_mode none = true
no_mode (some mode) = false

abbrev pub unknown_fallback : Bytes → Bool
unknown_fallback f = not (f == [] || (f == ascii "fail" || f == ascii "kernel"))

-- `validate` behind the times.
unfoldable pub validate_rest : FileConfig → Result LoadError (Unit {0})
unfolding validate_mss_clamp validate_health_check admin_mode check_rules
validate_rest c =
    if_enabled c.mss_clamp.enabled (refused_by bad_clamp (validate_mss_clamp c.mss_clamp))
    >> if_enabled c.health_check.enabled
        (refused_by bad_health (validate_health_check c.health_check))
    >> refuse (no_mode (admin_mode c)) bad_mode
    >> refuse (unparsed c.inner_pool) bad_pool
    >> refuse (unparsed c.gre_local) bad_local
    >> refuse (unknown_fallback c.source_fallback) bad_fallback
    >> check_rules c.source_rules

-- `validate`
unfoldable pub validate : FileConfig → Result LoadError (Unit {0})
unfolding validate_rest
validate c =
    refuse (no_host_port c.listen) bad_listen
    >> refuse (not (c.fou_port == 0) && not (c.netlink_socket == [])) fou_with_broker
    >> refuse (ltb_ℤ c.mtu (pos 0)) bad_mtu
    >> refuse (ltb_ℤ c.max_pending_handshakes (pos 0)) bad_pending
    >> refuse (ltb_ℤ c.max_pending_per_ip (pos 0)) bad_pending
    >> refuse (leb_ℤ c.keepalive_interval (pos 0)) bad_interval
    >> refuse (leb_ℤ c.keepalive_timeout (pos 0)) bad_timeout
    >> refuse (leb_ℤ c.keepalive_timeout c.keepalive_interval) short_timeout
    >> refuse (ltb_ℤ c.lease_ttl (pos 0)) bad_ttl
    >> validate_rest c

-- `Load` on what the YAML says.
unfoldable pub load : FileConfig → Result LoadError FileConfig
unfolding apply_defaults validate
load c = let d = apply_defaults c in validate d >>= λ _. ok d
