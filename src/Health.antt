-- ===== src/Health.antt =====
-- `HealthCheck` of internal/config/config.go and the loop of internal/healthcheck/healthcheck.go. A
-- round's probes are run by the ping command: what they answer is an argument. Times are nanoseconds.
pub mod Reconnecting
use gremlind.Prelude.{
  ℕ, zero, suc, Bool, true, false, ◌&&◌, ◌||◌, not, List, [], ◌∷◌, Option, none, some, Result, ok,
  err, length, ◌==◌, nat_eq, if◌then◌else◌, ◌>>◌,
}
use gremlind.Prelude.Bytes.{Bytes}
use gremlind.Prelude.Int.{ℤ, pos, negsuc, ltb_ℤ, leb_ℤ}
use gremlind.Net.{Addr}
use gremlind.Config.{Text, empty, ill_formed, parsed}

-- The texts of the actions; `unknown` is any other text.
pub data Action : Type 0 where
  log run_script reconnect unknown : Action

pub record HealthCheck : Type 0 where
  pub enabled : Bool
  pub interval : ℤ
  pub timeout : ℤ
  pub failures : ℤ
  pub actions : List Action
  pub script : Bytes
  pub target : Text Addr
  pub packet_size : ℤ
  pub packet_sizes : List ℤ
  pub inter_packet_delay : ℤ
  pub large_packet_delay : ℤ
  pub large_packet_threshold : ℤ
  pub command : Bytes
  pub bind_interface : Bool

unfoldable pub is_zero : ℤ → Bool
is_zero (pos zero) = true
is_zero _ = false

-- `WithDefaults`
unfoldable pub with_defaults : HealthCheck → HealthCheck
unfolding is_zero
with_defaults h = record h {
  interval = if is_zero h.interval then pos 30000000000 else h.interval;
  timeout = if is_zero h.timeout then pos 3000000000 else h.timeout;
  failures = if is_zero h.failures then pos 3 else h.failures;
  actions = if length h.actions == 0 then log ∷ [] else h.actions;
  command = if length h.command == 0 then b'p' ∷ b'i' ∷ b'n' ∷ b'g' ∷ [] else h.command;
}

pub data Invalid : Type 0 where
  bad_interval bad_timeout bad_failures bad_action no_script bad_target bad_size bad_delay
        bad_threshold no_command :
      Invalid

abbrev pub demand : Bool → Invalid → Result Invalid (Unit {0})
demand true e = ok tt
demand false e = err e

-- The loop over the actions: every text is known, and whether a script is used.
unfoldable pub known_actions : List Action → Bool
known_actions [] = true
known_actions (unknown ∷ s) = false
known_actions (a ∷ s) = known_actions s

unfoldable pub uses_script : List Action → Bool
uses_script [] = false
uses_script (run_script ∷ s) = true
uses_script (a ∷ s) = uses_script s

abbrev pub size_fits : ℤ → Bool
size_fits n = leb_ℤ (pos 0) n && leb_ℤ n (pos 65507)

unfoldable pub sizes_fit : List ℤ → Bool
sizes_fit [] = true
sizes_fit (n ∷ s) = size_fits n && sizes_fit s

abbrev pub parses : Text Addr → Bool
parses empty = true
parses ill_formed = false
parses (parsed a) = true

-- `validateHealthCheck`
unfoldable pub validate_health_check : HealthCheck → Result Invalid (Unit {0})
unfolding known_actions uses_script sizes_fit
validate_health_check h =
    demand (ltb_ℤ (pos 0) h.interval) bad_interval
    >> demand (ltb_ℤ (pos 0) h.timeout) bad_timeout
    >> demand (ltb_ℤ (pos 0) h.failures) bad_failures
    >> demand (known_actions h.actions) bad_action
    >> demand (not (uses_script h.actions && length h.script == 0)) no_script
    >> demand (parses h.target) bad_target
    >> demand (size_fits h.packet_size) bad_size
    >> demand (sizes_fit h.packet_sizes) bad_size
    >> demand (leb_ℤ (pos 0) h.inter_packet_delay) bad_delay
    >> demand (leb_ℤ (pos 0) h.large_packet_delay) bad_delay
    >> demand (size_fits h.large_packet_threshold) bad_threshold
    >> demand (not (length h.command == 0)) no_command

-- `packetSizes`
unfoldable pub packet_sizes_of : HealthCheck → List ℤ
packet_sizes_of h = if length h.packet_sizes == 0 then h.packet_size ∷ [] else h.packet_sizes

-- The delay that `waitBetweenProbes` waits for, `none` for none.
unfoldable pub wait_between_probes : HealthCheck → ℤ → Option ℤ
unfolding is_zero
wait_between_probes h next_size =
    let threshold = if is_zero h.large_packet_threshold then pos 1 else h.large_packet_threshold in
    let delay =
      if leb_ℤ threshold next_size && ltb_ℤ (pos 0) h.large_packet_delay
      then h.large_packet_delay
      else h.inter_packet_delay in
    if leb_ℤ delay (pos 0) then none else some delay

-- `probeAllSizes`: the first size that fails ends the round.
unfoldable pub probe_all_sizes : (ℤ → Bool) → List ℤ → Option ℤ
probe_all_sizes ping [] = none
probe_all_sizes ping (n ∷ s) = let rest = probe_all_sizes ping s in if ping n then rest else some n

-- `runFailureActions`: whether it asks for a reconnect.
unfoldable pub run_failure_actions : List Action → Bool
run_failure_actions [] = false
run_failure_actions (reconnect ∷ s) = true
run_failure_actions (a ∷ s) = run_failure_actions s

-- The body of the loop on a round that fails or does not: the failures counted, and whether `Loop`
-- returns for a reconnect.
unfoldable pub health_round : HealthCheck → ℕ → Bool → ℕ × Bool
unfolding run_failure_actions
health_round h failures failed =
    if not failed
    then (0, false)
    else if leb_ℤ h.failures (pos (suc failures))
    then (0, run_failure_actions h.actions)
    else (suc failures, false)

-- `Loop` over the rounds until its context ends: whether it asks for a reconnect.
unfoldable pub health_loop : HealthCheck → ℕ → List Bool → Bool
unfolding health_round
health_loop h failures [] = false
health_loop h failures (failed ∷ rounds) =
    let (n, stop) = health_round h failures failed in
    let rest = health_loop h n rounds in if stop then true else rest
