-- ===== src/Maintenance.antt =====
-- app/core/demo_data.py and app/core/maintenance.py: test listings by their name, and the throttled
-- purge of the expired ones. Clocks are whole microseconds.
use agent_discovery_board.Prelude.{
  ℕ, ◌+◌, ◌-◌, String, ◌≡◌, refl, Bool, false, Option, none, some, ltb, if◌then◌else◌, starts_with,
}
use agent_discovery_board.Store.{Db}
use agent_discovery_board.ImportStore.{purge_expired_test_listings}

-- TEST_NAME_PREFIX
abbrev pub test_name_prefix : String
test_name_prefix = "test-"

unfoldable pub is_test_name : String → Bool
is_test_name name = starts_with name test_name_prefix

unfoldable pub expires_at : ℕ → ℕ → ℕ
expires_at ttl created_at = created_at + ttl

-- PURGE_BATCH_SIZE
abbrev pub purge_batch_size : ℕ
purge_batch_size = 200

-- What the module keeps (`_last_run`) and how it is set up.
pub record Throttle : Type 0 where
  pub ttl : ℕ
  pub min_interval : ℕ
  pub last_run : Option ℕ

-- now - ttl, the cutoff of a purge: the source subtracts two dates, and `now` is past the ttl.
unfoldable pub purge : Throttle → ℕ → Db → Db
purge t now db = (purge_expired_test_listings (now - t.ttl) purge_batch_size db).1

abbrev pub is_throttled : Throttle → ℕ → Bool
is_throttled t mono = elim t.last_run [ none ↦ false | some run ↦ ltb mono (run + t.min_interval) ]

-- `maybe_purge`: the database may fail, which is logged and changes nothing else.
unfoldable pub maybe_purge : Throttle → (mono now : ℕ) → (db_fails : Bool) → Db → Throttle × Db
maybe_purge t mono now db_fails db =
    if is_throttled t mono
    then (t, db)
    else (record t { last_run = some mono }, if db_fails then db else purge t now db)

-- `startup_maintenance`: `init_fails` where the schema could not be made; then nothing is tried.
unfoldable pub startup_maintenance :
    Throttle → (mono now : ℕ) → (init_fails db_fails : Bool) → Db → Throttle × Db
startup_maintenance t mono now init_fails db_fails db =
    if init_fails
    then (t, db)
    else if db_fails
    then (t, db)
    else (record t { last_run = some mono }, purge t now db)

-- A run of the purge silences every later one until the interval is over, also where it failed, and
-- at the end of the interval the next one runs.
pub throttle_window :
    (t : Throttle) (mono now later now' : ℕ) (fails breaks : Bool) (db db' : Db)
    → is_throttled t mono ≡ false
    → let t' = (maybe_purge t mono now fails db).0 in
      maybe_purge t' later now' breaks db' ≡ (
        if ltb later (mono + t.min_interval)
        then (t', db')
        else (record t { last_run = some later }, if breaks then db' else purge t now' db'))
unfolding maybe_purge purge
throttle_window t mono now later now' fails breaks db db' open_now = rw (open_now) refl
