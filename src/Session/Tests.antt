-- ===== src/Session/Tests.antt =====
-- Tests of src/session.cpp on the sample server.
use lectern_server.Prelude.{◌≡◌, refl, bytes, some, none, arith}
use lectern_server.Error.{ok}
use lectern_server.Sample.{sample_env, sample_world, sample_db, sample_visit}
use lectern_server.World
use lectern_server.World.{World, Request, Cookie}
use lectern_server.Session.{current_user_id, start, destroy}
use lectern_server.Session.Cookies.{
  Vouches, current_user_id-Vouches, at_time, start-current_user_id, destroy-current_user_id,
}

current_user_id-Vouches_example : Vouches sample_env sample_db (bytes "0.30") (bytes "a")
unfolding current_user_id World.after
current_user_id-Vouches_example = current_user_id-Vouches sample_env sample_visit sample_world refl

abbrev started : World
started = (start sample_env 2 (bytes "b") sample_world).1

abbrev return_visit : Request
return_visit = record sample_visit { cookie = λ name. bytes "ab02.61623032" }

start-current_user_id_example :
    (current_user_id (at_time 6000 sample_env) return_visit started).0 ≡ ok (some (bytes "b"))
unfolding start current_user_id World.after World.execute
start-current_user_id_example =
    start-current_user_id sample_env 2 6000 (bytes "b") sample_world return_visit refl refl refl
      (omega arith)

destroy-current_user_id_example :
    (current_user_id
      (at_time 6000 sample_env)
      sample_visit
      (destroy sample_env sample_visit sample_world).1).0
    ≡ ok none
destroy-current_user_id_example = destroy-current_user_id sample_env sample_visit sample_world 6000
