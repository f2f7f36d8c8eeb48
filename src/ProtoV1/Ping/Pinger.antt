-- ===== src/ProtoV1/Ping/Pinger.antt =====
-- proto/protov1/ping.go: StartPinger. The ticks before the end of its context are a list: for each, the
-- two readings of the clock of its ping.
use rtvbp_go.Common.{List, [], ◌∷◌, if◌then◌else◌}
use rtvbp_go.Common.Int.{ℤ, pos, ltb_ℤ, eqb_ℤ}
use rtvbp_go.Common.Act.{◌>>=◌, pure, catch, crash}
use rtvbp_go.Handler.Shc.{Call, Shc}
use rtvbp_go.ProtoV1.Ping.{ping}

abbrev pub default_interval : ℤ
default_interval = pos 10000000000

module _ {S : Type 0} where
  -- A ping that fails is logged, and its round trip is 0.
  abbrev ping_or_zero : Shc S → ℤ → ℤ → ℤ → Call S ℤ
  ping_or_zero shc sent now last = catch (ping shc sent now last) (λ e. pure (pos 0))

  -- The loop of StartPinger
  unfoldable pub run_pings : Shc S → List (ℤ × ℤ) → ℤ → Call S (Unit {0})
  unfolding ping
  run_pings shc [] last = pure tt
  run_pings shc ((sent, now) ∷ ticks) last =
      ping_or_zero shc sent now last >>= λ rtt. run_pings shc ticks rtt

  -- StartPinger; a time is in nanoseconds, and NewTicker panics where it is negative.
  unfoldable pub start_pinger : ℤ → Shc S → List (ℤ × ℤ) → Call S (Unit {0})
  unfolding run_pings
  start_pinger interval shc ticks =
      let interval' = if eqb_ℤ interval (pos 0) then default_interval else interval in
      if ltb_ℤ interval' (pos 0) then crash else run_pings shc ticks (pos 0)
