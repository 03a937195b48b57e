-- ===== src/Tests/HealthTests.antt =====
-- The health check with its defaults, a script and a reconnect.
use gremlind.Prelude.{◌≡◌, ◌↔◌, refl, true, false, [], ◌∷◌, ok}
use gremlind.Prelude.Int.{pos}
use gremlind.Config.{empty}
use gremlind.Health.{HealthCheck, log, reconnect, with_defaults, validate_health_check, health_loop}
use gremlind.Health.Reconnecting.{Reached, health_loop-Reached}

abbrev sample : HealthCheck
sample = with_defaults (record {
  enabled = true;
  interval = pos 0;
  timeout = pos 0;
  failures = pos 2;
  actions = log ∷ reconnect ∷ [];
  script = [];
  target = empty;
  packet_size = pos 0;
  packet_sizes = [];
  inter_packet_delay = pos 0;
  large_packet_delay = pos 0;
  large_packet_threshold = pos 0;
  command = [];
  bind_interface = true;
})

sample_valid : validate_health_check sample ≡ ok tt
unfolding validate_health_check with_defaults
sample_valid = refl

third_and_fourth : health_loop sample 0 (true ∷ false ∷ true ∷ true ∷ []) ≡ true
unfolding health_loop with_defaults
third_and_fourth = refl

health_loop-Reached_example :
    (health_loop sample 0 (true ∷ false ∷ true ∷ true ∷ []) ≡ true)
    ↔ Reached sample (true ∷ false ∷ true ∷ true ∷ [])
health_loop-Reached_example = health_loop-Reached sample (true ∷ false ∷ true ∷ true ∷ [])
