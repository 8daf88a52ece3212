-- ===== src/Lib.antt =====
-- A verification library for the energy-gateway monitoring and battery control platform of this
-- repository: its safety-critical decisions and state machines as executable definitions, with the
-- theorems that make them correct.
--
-- The parts of the program and how they interact:
--   * api/control/execute.ts is the one path by which a setpoint reaches a device: a chain of checks,
--     a Modbus write over TCP or through a gateway, a row in the commands table and an event. Modelled
--     in Control: Types and Execute (ControllableDef, the checks of executeControl), Perform
--     (executeControl on a plant that answers by a function), Log (executeAndLog), Commands (the rows
--     of the commands table).
--   * api/mqtt/c30-outstanding.ts correlates the answers of a transparent gateway with the reads that
--     asked for them; a write through such a gateway is confirmed that way. Modelled in Transparent, its effect
--     on the commands table in Control/Commands.
--   * api/modbus.ts and contracts/modbus.ts: frames, read blocks and the decoding of registers.
--     Modelled in Modbus/Frame and Modbus/Registers.
--   * api/ems/decide.ts, api/ems/watchdog.ts and api/ems/curtail.ts: the decisions of the energy
--     controller, and api/ems/controller.ts: its tick, which commands through executeAndLog. Modelled
--     in Ems: Decide, Watchdog, Curtail, Tick (send, evalPlans and evalSchedules over the control
--     path), Shaving (evalPeakShaving), GridLimit (evalGridLimits and emsTick) and Refresh
--     (refreshWatchdogs, which ends the tick). api/ems/tariff.ts, which plans the charging of a battery
--     by the prices of electricity, is in Tariff (the price curve), Tariff/Plan (planArbitrage) and
--     Tariff/Pick (pickTariff).
--   * api/ota/rollout.ts decides which wave of a staged firmware rollout is next, api/ota/manager.ts
--     delivers jobs to gateways and takes their acks, and api/ota/rollout-driver.ts stands between the
--     two and the tables. Modelled in Ota: Rollout, Jobs, Driver.
--   * api/alarms/hysteresis.ts, api/alarms/stuck.ts, contracts/oncall.ts and api/alarms/notify.ts: when
--     an alarm is raised and who is told. Modelled in Alarms: Hysteresis, Stuck, Oncall, Notify (breaches,
--     resolutions and the escalation sweep over the rows of notifications) and Telegram (the target of
--     a channel).
--   * api/lib/leader.ts, the single-writer leases under which the loops that command plant run, and
--     api/lib/org-scope.ts, the scoping of rows to organizations. Modelled in Leader.
--   * contracts/commissioning.ts and api/commissioning/evaluate.ts: the checklist that says whether a
--     site is commissioned, and its facts. Modelled in Commissioning.
--   * api/webhooks/dispatch.ts and api/webhooks/retry.ts: the queue of outbound webhooks and its retry
--     policy. Modelled in Webhooks: Dispatch (emit, webhookSweep) and Retry.
--   * api/rest/rate-limit.ts and api/rest/rate-limit-store.ts: the token buckets of the REST API.
--     Modelled in RateLimit: one request in RateLimit itself, requests that interleave in Contention.
--   * api/lib/totp.ts and loginMfa of api/routers/auth.ts: the second step of a login. Modelled in Mfa:
--     Pending (the stores of challenges), Totp (verifyTotp) and Login (loginMfa).
--   * api/telemetry/merge.ts, which puts reports together from raw telemetry and from aggregates.
--     Modelled in Telemetry/Merge.
-- Prelude holds what they share: Boolean tests, lists, integers, association lists, sorting.
--
-- How the state corresponds. A record of the source is a record here, a union of literals a data type,
-- `null` and `undefined` are `none`; a Map is an association list in insertion order; a table is the
-- list of its rows or, where it is only read, a function. A call that changes the process or a table
-- takes the state and returns the new one (Control.Perform.World, Registry, Leases, Hooks, Auth). An exception is a
-- value of the result (Control.Execute.Checked, Control.Perform.Outcome). The texts of messages are data: which message it is and the
-- numbers that it shows.
--
-- Numbers. The program computes with doubles. Powers, limits and setpoints are integers in millionths
-- of their unit, so the roundings of the source act on them and the rounding error of a double is not
-- modelled; times are integer milliseconds. The tariff planner divides, and its divisions are
-- multiplied out (Ems/Tariff/Plan names the units). Where the arithmetic of doubles decides, it is a parameter
-- (the scaling of a decoded register, the percentage of failures of a wave). Registers and frames are
-- natural numbers with their ranges as premises or proved.
--
-- Parameters: the answers of devices and of the broker (Control.Perform.Plant, Ota.Jobs.Links), Date.parse, the
-- offset of a timezone by Intl, what a timestamp column keeps of an instant. Likewise otplib's
-- verdict on a code at a step, decryption and digests (Mfa.Login.Checks), the replies of webhook
-- endpoints (Webhooks.Dispatch.Net), the replies of notification channels, the order of
-- texts (merge_day_rows) and what other requests do to a bucket (RateLimit.Beside). No
-- definition takes fuel: every loop runs over a list or a number of rounds that is known before.
--
-- Not modelled: the user interface (src/), the database queries and the HTTP and MQTT transports, the
-- stores of telemetry, the password step and single sign-on, exports and reports.
pub mod Prelude
pub mod Alarms
pub mod Commissioning
pub mod Control
pub mod Ems
pub mod Leader
pub mod Mfa
pub mod Modbus
pub mod Ota
pub mod RateLimit
pub mod Telemetry
pub mod Transparent
pub mod Webhooks
