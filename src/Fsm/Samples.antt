-- ===== src/Fsm/Samples.antt =====
-- strategy/fsm.py: a configuration that tests use.
use liquidity_bot.Float.Fixed.{ℤ, num}
use liquidity_bot.Fsm.{FsmConfig}

abbrev pub config : FsmConfig ℤ
config = record {
  impulse_z = num 3 1;
  impulse_min_velocity = num 1 10;
  confirm_wait = 8_000_000;
  impulse_timeout = 90_000_000;
  exhaustion_timeout = 60_000_000;
  retest_timeout = 45_000_000;
  retest_tolerance_bps = num 4 1;
  cooldown = 60_000_000;
  max_peer_confirm_latency_s = num 20 1;
  velocity_flip_frac = num 35 100;
  min_replenishment_confidence = num 3 10;
}
