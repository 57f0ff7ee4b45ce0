-- ===== src/Sessions/Manager/Tests.antt =====
-- The race of internal/pkg/session/manager.go on a server in memory.
use zentora_backend.Prelude.{◌≡◌, refl, true, false, Option, none, [], arith}
use zentora_backend.Prelude.Int.{pos}
use zentora_backend.Text.{Text, lit}
use zentora_backend.Redis.Instance.{Memory, memory, memory-IsRedis}
use zentora_backend.Sessions.{SessionData}
use zentora_backend.Sessions.Manager.{
  Stored, Failures, ok, World, create_session, get_session, activity_read, read_activity,
  invalidate_all_user_sessions, session_key, session_prefix,
}
use zentora_backend.Sessions.Manager.Revoked.{is_err}
use zentora_backend.Sessions.Manager.Revived.{write_activity_revives}

abbrev fine : Failures
fine = record {
  gets = false;
  sets = false;
  dels = false;
  scans = false;
  finds = false;
  updates = false;
}

abbrev data_ : SessionData
data_ = record {
  jti = lit "j";
  identity_id = pos 7;
  session_id = pos 1;
  email = [];
  roles = [];
  permissions = [];
  device = [];
  device_id = [];
  device_name = [];
  ip_address = [];
  user_agent = [];
  provider = lit "local";
  login_at = 100;
  last_activity_at = 100;
  expires_at = 1000;
  is_active = true;
  metadata = [];
}

abbrev world : World (Memory Stored)
world = (create_session memory fine 100 data_ (record { redis = []; rows = [] })).1

abbrev revoked_world : World (Memory Stored)
revoked_world = (invalidate_all_user_sessions memory fine 201 (pos 7) world).1

was_read : read_activity memory fine 200 (pos 7) (lit "j") world ≡ ok (Option.some data_)
unfolding create_session read_activity session_key session_prefix zentora_backend.Text.Decimal.itoa
was_read = refl

write_activity_revives_example :
    (is_err (get_session memory fine 300 (λ i. none) (pos 7) (lit "j") revoked_world).0 ≡ true)
    × ((get_session memory fine 300
          (λ i. none)
          (pos 7)
          (lit "j")
          (activity_read memory fine 202
            (pos 7)
            (lit "j")
            revoked_world
            (read_activity memory fine 200 (pos 7) (lit "j") world)).1).0
        ≡ ok (record data_ { last_activity_at = 300 }))
write_activity_revives_example =
    write_activity_revives memory memory-IsRedis (λ i. none) fine fine fine fine 200 201 202 300
      (pos 7) (lit "j") data_ world was_read (refl, refl, refl) (omega arith) refl (omega arith)
      refl (omega arith)
