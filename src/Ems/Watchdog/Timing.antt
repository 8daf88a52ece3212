-- ===== src/Ems/Watchdog/Timing.antt =====
-- The refresh interval against the device's timeout (api/ems/watchdog.ts).
use gateway_monitoring_platf.Prelude.{pos, ◌≤ℤ◌, ◌+ℤ◌, arith}
use gateway_monitoring_platf.Ems.Watchdog.{WatchdogConfig, effective_interval_ms}

-- With a device timeout of three seconds or more, three refreshes at the effective interval fit
-- into the timeout, the interval is at least a second, and it is longer than the configured one
-- only where that is below a second.
pub effective_interval_ms_bounds :
    (cfg : WatchdogConfig)
    → pos 3000 ≤ℤ cfg.device_timeout_ms
    → (let e = effective_interval_ms cfg in
        (e +ℤ e +ℤ e ≤ℤ cfg.device_timeout_ms)
        × (pos 1000 ≤ℤ e)
        × (pos 1000 ≤ℤ cfg.interval_ms → e ≤ℤ cfg.interval_ms))
unfolding effective_interval_ms ◌+ℤ◌
effective_interval_ms_bounds cfg h = ground arith

-- With a device timeout of a second or less the effective interval is not shorter than the
-- timeout, whatever interval is configured.
pub effective_interval_ms-useless :
    (cfg : WatchdogConfig)
    → cfg.device_timeout_ms ≤ℤ pos 1000
    → cfg.device_timeout_ms ≤ℤ effective_interval_ms cfg
unfolding effective_interval_ms
effective_interval_ms-useless cfg h = ground arith
