-- ===== src/Usm.antt =====
-- The clock of `USM` in security.go: the boots and the time of the remote engine. The numbers are
-- not negative. The time of day is an argument, in nanoseconds, and later than the last update.
pub mod Clock
pub mod Crypto
pub mod Requests
mod Tests
use snmpclient.Prelude.{
  ℕ, suc, ◌+◌, ◌-◌, ◌/◌, ◌≡◌, Bool, true, false, ◌&&◌, ◌||◌, Option, none, some, Bytes, List, Error,
  generic, response, Outcome, ok, err, length, ltb, ◌==◌, if◌then◌else◌,
}
use snmpclient.Variable.{max_int32}

pub record Usm : Type 0 where
  pub auth_engine_id : Bytes
  pub auth_engine_boots : ℕ
  pub auth_engine_time : ℕ
  pub updated_time : ℕ

-- `int64(now.Sub(u.UpdatedTime).Seconds())`: what is left of a second is dropped.
unfoldable pub seconds_since : ℕ → ℕ → ℕ
seconds_since last now = (now - last) / 1000000000

unfoldable pub is_discover : Usm → Bool
is_discover u = ltb 0 (length u.auth_engine_id) && ltb 0 u.auth_engine_time

-- `UpdateEngineBootsTime` at the time `now`: the state after it and the error, `none` for nil. The
-- fraction of a second that is dropped is lost, since `UpdatedTime` is then `now`. With the error
-- the time and the boots have been changed, and `UpdatedTime` has not.
unfoldable pub update_engine_boots_time : ℕ → Usm → Usm × Option Error
unfolding seconds_since
update_engine_boots_time now u =
    let time = u.auth_engine_time + seconds_since u.updated_time now in
    if ltb max_int32 time
    then (if u.auth_engine_boots + 1 == max_int32
        then (
          record u { auth_engine_boots = u.auth_engine_boots + 1; auth_engine_time = time },
          some generic,
        )
        else (
          record u {
            auth_engine_boots = u.auth_engine_boots + 1;
            auth_engine_time = time - max_int32;
            updated_time = now;
          },
          none,
        ))
    else (record u { auth_engine_time = time; updated_time = now }, none)

unfoldable pub synchronize_engine_boots_time : ℕ → ℕ → ℕ → Usm → Usm
synchronize_engine_boots_time now engine_boots engine_time u = record u {
  auth_engine_boots = engine_boots;
  auth_engine_time = engine_time;
  updated_time = now;
}

-- `CheckTimeliness`; the difference of the times is that of two int64.
unfoldable pub check_timeliness : ℕ → ℕ → Usm → Option Error
check_timeliness engine_boots engine_time u =
    if (engine_boots == max_int32)
      || ltb engine_boots u.auth_engine_boots
      || ((engine_boots == u.auth_engine_boots) && ltb (u.auth_engine_time + 150) engine_time)
    then some response
    else none
