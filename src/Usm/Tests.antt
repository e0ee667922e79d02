-- ===== src/Usm/Tests.antt =====
-- The clock at concrete times.
use snmpclient.Prelude.{
  ℕ, ◌+◌, ◌≤◌, ◌<◌, ◌≡◌, ◌≢◌, ◌⊎◌, ◌↔◌, refl, none, some, [], ◌∷◌, generic, response, arith,
}
use snmpclient.Variable.{max_int32}
use snmpclient.Usm.{Usm, seconds_since, update_engine_boots_time, check_timeliness}
use snmpclient.Usm.Clock.{count, update_engine_boots_time_lem, check_timeliness_lem}

abbrev engine : Usm
engine = record {
  auth_engine_id = 1 ∷ 2 ∷ 3 ∷ 4 ∷ 5 ∷ [];
  auth_engine_boots = 4;
  auth_engine_time = 2147483000;
  updated_time = 10;
}

-- A thousand seconds and a half later.
abbrev later : ℕ
later = 1000500000010

update_engine_boots_time_lem_example :
    (((update_engine_boots_time later engine).1 ≡ none)
      × (count (update_engine_boots_time later engine).0 ≡ count engine + seconds_since 10 later)
      × ((update_engine_boots_time later engine).0.auth_engine_time ≤ max_int32)
      × ((update_engine_boots_time later engine).0.auth_engine_boots < max_int32)
      × ((update_engine_boots_time later engine).0.updated_time ≡ later))
    ⊎ (((update_engine_boots_time later engine).1 ≡ some generic)
        × (max_int32 < 2147483000 + seconds_since 10 later)
        × (4 + 1 ≡ max_int32))
update_engine_boots_time_lem_example =
    update_engine_boots_time_lem later engine (omega arith) (omega arith) (omega arith)
      (unfold seconds_since in omega arith)

elapsed : seconds_since 10 later ≡ 1000
unfolding seconds_since
elapsed = refl

check_timeliness_lem_example :
    (check_timeliness 4 7 engine ≡ none)
    ↔ ((4 ≢ max_int32) × ((4 < 4) ⊎ ((4 ≡ engine.auth_engine_boots) × (7 ≤ 2147483000 + 150))))
check_timeliness_lem_example = check_timeliness_lem 4 7 engine

-- A message from the first seconds of this boot is in the window years later, and one that is 151
-- seconds ahead is not.
window_side :
    (check_timeliness 4 7 engine ≡ none) × (check_timeliness 4 2147483151 engine ≡ some response)
unfolding check_timeliness
window_side = (refl, refl)
