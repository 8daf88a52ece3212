-- ===== src/Ems/Refresh/Unreachable.antt =====
-- The refresh of a device that does not answer (api/ems/controller.ts, refreshWatchdogs).
use gateway_monitoring_platf.Prelude.{
  ℕ, ◌+◌, ◌≡◌, refl, String, some, true, false, arith, List, [], ◌∷◌, pos, or_else,
}
use gateway_monitoring_platf.Control.Types.{Num, finite}
use gateway_monitoring_platf.Control.Execute.{Db, Meter, Plan, pass, check_control}
use gateway_monitoring_platf.Control.Perform.{
  Plant, World, not_connected, returns, host_of, execute_control, write_device, write_tcp,
  tcp_result,
}
use gateway_monitoring_platf.Ems.Watchdog.{WatchdogConfig, effective_interval_ms, watchdog_due}
use gateway_monitoring_platf.Ems.Refresh.{Refreshes, pet_of, set_pet, to_int, refresh_one}

pet_of-set_pet : (id at : ℕ) (pets : List (ℕ × ℕ)) → pet_of id (set_pet id at pets) ≡ some at
unfolding pet_of set_pet
pet_of-set_pet id at [] = ground arith
pet_of-set_pet id at ((j, old) ∷ pets) = ground (arith, pet_of-set_pet id at pets)

module _ (db : Db) (plant : Plant) (meter : Meter) (plan : Plan) (host : String) where
  write_device-dark :
      (w : World)
      → host_of meter.host ≡ some host
      → plant.tcp host
          (or_else meter.port 502)
          (or_else meter.unit_id meter.modbus_address)
          plan.def.address
          plan.register
        ≡ not_connected
      → write_device db plant meter plan w ≡ (returns (tcp_result plan not_connected), w)
  unfolding write_device write_tcp
  write_device-dark w addressed dark = rw (addressed, dark, write_device) refl

  -- The control path returns where the device cannot be reached.
  execute_control-dark :
      (key : String) (value : Num) (w : World)
      → check_control db meter key value false ≡ pass plan
      → host_of meter.host ≡ some host
      → plant.tcp host
          (or_else meter.port 502)
          (or_else meter.unit_id meter.modbus_address)
          plan.def.address
          plan.register
        ≡ not_connected
      → execute_control db plant meter key value false w
        ≡ (returns (tcp_result plan not_connected), w)
  unfolding execute_control
  execute_control-dark key value w passes addressed dark =
      rw passes (write_device-dark w addressed dark)

-- A device that is due and whose connection is refused counts as refreshed: no byte has been written,
-- and the refresh is recorded at the present time all the same, so that it is not tried again before
-- its interval has passed. This holds for a device with a TCP address whose watchdog register and
-- value the checks let pass.
pub refresh_one-unreachable :
    (db : Db) (plant : Plant) (meter : Meter) (cfg : WatchdogConfig) (s : Refreshes) (plan : Plan)
    (host : String)
    → watchdog_due
        (to_int (pet_of meter.id s.last_pet))
        (pos s.world.now)
        (effective_interval_ms cfg)
      ≡ true
    → check_control db meter cfg.key (finite cfg.value) false ≡ pass plan
    → host_of meter.host ≡ some host
    → plant.tcp host
        (or_else meter.port 502)
        (or_else meter.unit_id meter.modbus_address)
        plan.def.address
        plan.register
      ≡ not_connected
    → let s' = refresh_one db plant meter (some cfg) s in
      (s'.world ≡ s.world)
      × (pet_of meter.id s'.last_pet ≡ some s.world.now)
      × (s'.refreshed ≡ s.refreshed + 1)
unfolding refresh_one
refresh_one-unreachable db plant meter cfg s plan host due passes addressed dark =
    let e : execute_control db plant meter cfg.key (finite cfg.value) false s.world
        ≡ (returns (tcp_result plan not_connected), s.world) =
      execute_control-dark db plant meter plan host cfg.key (finite cfg.value) s.world passes
        addressed dark in
    (
      rw (due, e) refl,
      rw (due, e) (pet_of-set_pet meter.id s.world.now s.last_pet),
      rw (due, e) refl,
    )
