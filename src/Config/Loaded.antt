-- ===== src/Config/Loaded.antt =====
-- What `Load` of internal/config/config.go leaves: the defaults are settled and the timers run.
use gremlind.Prelude.{
  ℕ, ◌≤◌, ◌≡◌, refl, subst, ◌⊎◌, inl, inr, Bool, true, false, ◌&&◌, not, [], ◌∷◌, Option, none,
  some, Result, ok, err, ltb, length, ◌==◌, nat_eq, list_eq, ◌>>◌, >>=-eq-ok, arith, All,
  Bool-cases, if◌then◌else◌,
}
use gremlind.Prelude.Bytes.{Bytes}
use gremlind.MssClamp.Rules.{protocol_specs}
use gremlind.MssClamp.Bounds.{Fitting, mss_of-Fitting}
use gremlind.Prelude.Int.{pos, ltb_ℤ, leb_ℤ}
use gremlind.Prelude.Texts.{ascii}
use gremlind.Config.{Text, empty, ill_formed, parsed}
use gremlind.Config.Clamp
use gremlind.Config.Clamp.{MssClamp, ClampError, or_text, validate_mss_clamp}
use gremlind.Health
use gremlind.Health.{HealthCheck, is_zero, validate_health_check}
use gremlind.Config.Loading.{
  FileConfig, LoadError, seconds, or_listen, own_table, clamp_defaults, apply_defaults, parse_octal,
  admin_mode, permissions, bad_health, refuse, refused_by, if_enabled, bad_clamp, no_mode,
  no_host_port, validate_rest, validate, load, default_iface,
}

-- A field that is filled in where a test holds is settled, if the default fails the test.
filled-again :
    {A : Type 0}
    → (test : A → Bool) (t d : A) → test d ≡ false
    → (if test (if test t then d else t) then d else (if test t then d else t))
      ≡ (if test t then d else t)
filled-again test t d h = elim (Bool-cases (test t)) [
  | inl e ↦ rw e (rw h refl)
  | inr e ↦ rw e (rw e refl)
]

filled-set :
    {A : Type 0}
    → (test : A → Bool) (t d : A) → test d ≡ false
    → test (if test t then d else t) ≡ false
filled-set test t d h = elim (Bool-cases (test t)) [ inl e ↦ rw e h | inr e ↦ rw e e ]

or_listen-again : (t : Text Bytes) → or_listen (or_listen t) ≡ or_listen t
or_listen-again empty = refl
or_listen-again ill_formed = refl
or_listen-again (parsed t) = refl

health-again :
    (h : HealthCheck) → Health.with_defaults (Health.with_defaults h) ≡ Health.with_defaults h
unfolding Health.with_defaults is_zero
health-again h =
    rw
      (
        filled-again is_zero h.interval (seconds 30) refl,
        filled-again is_zero h.timeout (seconds 3) refl,
        filled-again is_zero h.failures (pos 3) refl,
        filled-again (λ s. length s == 0) h.actions (Health.log ∷ []) refl,
        filled-again (λ s. length s == 0) h.command (ascii "ping") refl,
      )
      refl

own_table-filled : (m : MssClamp) → own_table (clamp_defaults m) ≡ false
unfolding Clamp.with_defaults
own_table-filled m =
    rw (filled-set (λ s. s == []) m.nft_table (ascii "gremlind") refl) (ground arith)

clamp-again : (m : MssClamp) → clamp_defaults (clamp_defaults m) ≡ clamp_defaults m
unfolding Clamp.with_defaults
clamp-again m =
    rw
      (
        own_table-filled m,
        filled-again (λ s. s == []) m.backend (ascii "nftables") refl,
        filled-again (λ s. s == []) m.direction (ascii "out") refl,
        filled-again (λ s. s == []) m.mss_mode (ascii "pmtu") refl,
        filled-again (λ s. s == []) m.nft_family (ascii "inet") refl,
        filled-again (λ s. s == []) m.nft_table (ascii "gremlind") refl,
        filled-again (λ s. s == []) m.nft_chain (ascii "forward") refl,
        filled-again (λ s. s == []) m.iptables_chain (ascii "FORWARD") refl,
      )
      refl

apply_defaults-again : (c : FileConfig) → apply_defaults (apply_defaults c) ≡ apply_defaults c
unfolding apply_defaults is_zero
apply_defaults-again c =
    rw
      (
        or_listen-again c.listen,
        filled-again is_zero c.keepalive_interval (seconds 15) refl,
        filled-again is_zero c.keepalive_timeout (seconds 45) refl,
        filled-again is_zero c.lease_ttl (seconds 86400) refl,
        filled-again (λ s. s == []) c.admin_socket_mode (ascii "0600") refl,
        filled-again (λ s. s == []) c.client_iface default_iface refl,
        clamp-again c.mss_clamp,
        health-again c.health_check,
        filled-again (λ s. s == []) c.source_fallback (ascii "fail") refl,
      )
      refl

refuse-ok :
    (test : Bool) (e : LoadError) (k : Result LoadError (Unit {0}))
    → (refuse test e >> k) ≡ ok tt
    → (test ≡ false) × (k ≡ ok tt)
refuse-ok true e k h = cc
refuse-ok false e k h = (refl, h)

-- What `validate` has found where it accepts.
record Checked (c : FileConfig) : Type 0 where
  one_data_plane : (c.fou_port ≡ 0) ⊎ (c.netlink_socket ≡ [])
  ticking : ltb_ℤ (pos 0) c.keepalive_interval ≡ true
  patient : ltb_ℤ c.keepalive_interval c.keepalive_timeout ≡ true
  clamp : (c.mss_clamp.enabled ≡ false) ⊎ (validate_mss_clamp c.mss_clamp ≡ ok tt)
  mode : (m : ℕ) × (admin_mode c ≡ some m) × (m ≤ 511)

either : (a b : Bool) → (not a && not b) ≡ false → (a ≡ true) ⊎ (b ≡ true)
either true b h = inl refl
either false true h = inr refl
either false false h = cc

has_mode :
    (read : Option ℕ)
    → no_mode (permissions read) ≡ false
    → (m : ℕ) × (permissions read ≡ some m) × (m ≤ 511)
unfolding permissions
has_mode none h = cc
has_mode (some m) h = elim (Bool-cases (ltb 511 m)) [
  | inl big ↦ let bad : no_mode (permissions (some m)) ≡ true = rw (big, permissions) refl in cc
  | inr fits ↦ (m, rw (fits, permissions) refl, ground (arith, fits))
]

clamp_checked :
    (enabled : Bool) (r : Result ClampError (Unit {0})) (k : Result LoadError (Unit {0}))
    → (if_enabled enabled (refused_by bad_clamp r) >> k) ≡ ok tt
    → ((enabled ≡ false) ⊎ (r ≡ ok tt)) × (k ≡ ok tt)
clamp_checked false r k h = (inl refl, h)
clamp_checked true (ok u) k h = (inr refl, h)
clamp_checked true (err e) k h = cc

validate_rest-Checked :
    (c : FileConfig)
    → validate_rest c ≡ ok tt
    → ((c.mss_clamp.enabled ≡ false) ⊎ (validate_mss_clamp c.mss_clamp ≡ ok tt))
      × (no_mode (admin_mode c) ≡ false)
unfolding validate_rest
validate_rest-Checked c h =
    let (clamp, h1) = clamp_checked c.mss_clamp.enabled (validate_mss_clamp c.mss_clamp) _ h in
    let (u, _, h2) =
      >>=-eq-ok
        (if_enabled c.health_check.enabled
          (refused_by bad_health (validate_health_check c.health_check)))
        _ h1 in
    (clamp, (refuse-ok (no_mode (admin_mode c)) _ _ h2).0)

validate-Checked : (c : FileConfig) → validate c ≡ ok tt → Checked c
unfolding validate admin_mode
validate-Checked c h =
    let (_, h1) = refuse-ok (no_host_port c.listen) _ _ h in
    let (broker, h2) = refuse-ok (not (c.fou_port == 0) && not (c.netlink_socket == [])) _ _ h1 in
    let (_, h3) = refuse-ok (ltb_ℤ c.mtu (pos 0)) _ _ h2 in
    let (_, h4) = refuse-ok (ltb_ℤ c.max_pending_handshakes (pos 0)) _ _ h3 in
    let (_, h5) = refuse-ok (ltb_ℤ c.max_pending_per_ip (pos 0)) _ _ h4 in
    let (ticks, h6) = refuse-ok (leb_ℤ c.keepalive_interval (pos 0)) _ _ h5 in
    let (_, h7) = refuse-ok (leb_ℤ c.keepalive_timeout (pos 0)) _ _ h6 in
    let (waits, h8) = refuse-ok (leb_ℤ c.keepalive_timeout c.keepalive_interval) _ _ h7 in
    let (_, h9) = refuse-ok (ltb_ℤ c.lease_ttl (pos 0)) _ _ h8 in
    let (clamp, mode) = validate_rest-Checked c h9 in
    record {
      one_data_plane = elim (either (c.fou_port == 0) (c.netlink_socket == []) broker) [
        | inl none_set ↦ inl (ground (arith, none_set))
        | inr no_broker ↦ inr ((list_eq.decides c.netlink_socket []).0 no_broker)
      ];
      ticking = ground (arith, ticks);
      patient = ground (arith, waits);
      clamp = clamp;
      mode = has_mode (parse_octal c.admin_socket_mode) mode;
    }

-- A configuration that `Load` returns is settled: to apply the defaults again changes nothing. Its
-- keepalive interval is positive and below the timeout, it does not ask for FOU and the broker at
-- once, its socket mode has permission bits only, and where MSS clamping is on, the MSS of either
-- protocol fits for every tunnel MTU of 16 bits.
pub load-Checked :
    (c d : FileConfig) (tunnel_mtu : ℕ)
    → load c ≡ ok d
    → tunnel_mtu ≤ 65535
    → (apply_defaults d ≡ d)
      × (ltb_ℤ (pos 0) d.keepalive_interval ≡ true)
      × (ltb_ℤ d.keepalive_interval d.keepalive_timeout ≡ true)
      × ((d.fou_port ≡ 0) ⊎ (d.netlink_socket ≡ []))
      × ((m : ℕ) × (admin_mode d ≡ some m) × (m ≤ 511))
      × ((d.mss_clamp.enabled ≡ false) ⊎ All (Fitting d.mss_clamp tunnel_mtu) protocol_specs)
unfolding load
load-Checked c d tunnel_mtu h fits =
    let (_, accepted, same) = >>=-eq-ok (validate (apply_defaults c)) _ h in
    let is : apply_defaults c ≡ d = cc in
    let found = subst Checked is (validate-Checked (apply_defaults c) accepted) in
    (
      subst (λ x. apply_defaults x ≡ x) is (apply_defaults-again c),
      found.ticking,
      found.patient,
      found.one_data_plane,
      found.mode,
      elim found.clamp [
        | inl off ↦ inl off
        | inr valid ↦ inr (mss_of-Fitting d.mss_clamp tunnel_mtu valid fits)
      ],
    )
