-- ===== src/Usm/Clock.antt =====
-- What the clock of `USM` keeps, and which messages are in its window (security.go).
use snmpclient.Prelude.{ℕ, ◌+◌, ◌*◌, ◌≤◌, ◌<◌, ◌≡◌, ◌≢◌, ◌⊎◌, ◌↔◌, none, some, generic, arith}
use snmpclient.Variable.{max_int32}
use snmpclient.Usm.{Usm, seconds_since, update_engine_boots_time, check_timeliness}

-- The seconds that the boots and the time count together.
abbrev pub count : Usm → ℕ
count u = u.auth_engine_boots * max_int32 + u.auth_engine_time

-- Without an error `UpdateEngineBootsTime` moves the clock on by the whole seconds since the last
-- update, keeps the time within an int32, and leaves the boots below the greatest int32; it gives
-- the error exactly when the time runs over and the boots reach that number. The time was within an
-- int32 and the boots below it, the update is not earlier than the last, and no more than an int32
-- of seconds later.
pub update_engine_boots_time_lem :
    (now : ℕ) (u : Usm)
    → u.auth_engine_time ≤ max_int32
    → u.auth_engine_boots < max_int32
    → u.updated_time ≤ now
    → seconds_since u.updated_time now ≤ max_int32
    → (((update_engine_boots_time now u).1 ≡ none)
        × (count (update_engine_boots_time now u).0 ≡ count u + seconds_since u.updated_time now)
        × ((update_engine_boots_time now u).0.auth_engine_time ≤ max_int32)
        × ((update_engine_boots_time now u).0.auth_engine_boots < max_int32)
        × ((update_engine_boots_time now u).0.updated_time ≡ now))
      ⊎ (((update_engine_boots_time now u).1 ≡ some generic)
          × (max_int32 < u.auth_engine_time + seconds_since u.updated_time now)
          × (u.auth_engine_boots + 1 ≡ max_int32))
unfolding update_engine_boots_time
update_engine_boots_time_lem now u time boots order near = ground arith

-- A message is in the window exactly when its boots are not the greatest int32 and either more
-- than those of the clock, or the same with a time at most 150 seconds ahead of the clock, however
-- far behind it.
pub check_timeliness_lem :
    (engine_boots engine_time : ℕ) (u : Usm)
    → (check_timeliness engine_boots engine_time u ≡ none) ↔ (
        (engine_boots ≢ max_int32)
        × ((u.auth_engine_boots < engine_boots)
            ⊎ ((engine_boots ≡ u.auth_engine_boots) × (engine_time ≤ u.auth_engine_time + 150))))
unfolding check_timeliness
check_timeliness_lem engine_boots engine_time u = ground arith
