-- ===== src/Sessions.antt =====
-- The sessions: what Redis keeps of them (internal/pkg/session/types.go), and the table auth_sessions
-- with its queries (internal/repository/postgres/auth_repo.go).
pub mod Manager
use zentora_backend.Prelude.{
  ℕ, ◌≡◌, Bool, true, false, ◌&&◌, Option, none, some, List, [], ◌∷◌, ◌++◌, map, if◌then◌else◌, ltb,
}
use zentora_backend.Prelude.Int.{ℤ, ◌==ℤ◌}
use zentora_backend.Text.{Text, text_eq}
use zentora_backend.Access.{Value}

pub record SessionData : Type 0 where
  pub jti : Text
  pub identity_id : ℤ
  pub session_id : ℤ
  pub email : Text
  pub roles : List Text
  pub permissions : List Text
  pub device : Text
  pub device_id : Text
  pub device_name : Text
  pub ip_address : Text
  pub user_agent : Text
  pub provider : Text
  pub login_at : ℕ
  pub last_activity_at : ℕ
  pub expires_at : ℕ
  pub is_active : Bool
  pub metadata : List (Text × Value)

-- session_status
pub data Status : Type 0 where
  active expired revoked : Status

abbrev pub is_active_status : Status → Bool
is_active_status active = true
is_active_status expired = false
is_active_status revoked = false

-- A row of auth_sessions. `none` is NULL.
pub record Session : Type 0 where
  pub id : ℤ
  pub identity_id : ℤ
  pub session_token : Text
  pub refresh_token : Option Text
  pub provider : Text
  pub ip_address : Option Text
  pub user_agent : Option Text
  pub device_id : Option Text
  pub device_name : Option Text
  pub device_fingerprint : Option Text
  pub status : Status
  pub login_at : ℕ
  pub last_activity_at : ℕ
  pub expires_at : ℕ
  pub logout_at : Option ℕ
  pub metadata : List (Text × Value)

-- The row that is inserted: the database fills the id, the status and the times.
pub create_session_row : ℤ → ℕ → Session → List Session → List Session
create_session_row id now s rows =
    rows
    ++ record s {
      id = id;
      status = active;
      login_at = now;
      last_activity_at = now;
      logout_at = none;
    }
      ∷ []

abbrev pub is_open : ℕ → Text → Session → Bool
is_open now token s =
    text_eq s.session_token token && is_active_status s.status && ltb now s.expires_at

-- The first active row of the token that has not expired; the token is unique.
unfoldable pub find_session_by_token : ℕ → Text → List Session → Option Session
find_session_by_token now token [] = none
find_session_by_token now token (s ∷ rows) =
    if is_open now token s then some s else find_session_by_token now token rows

pub update_session_row_activity : ℕ → ℤ → List Session → List Session
update_session_row_activity now id rows =
    map (λ s. if s.id ==ℤ id then record s { last_activity_at = now } else s) rows

pub invalidate_session_row : ℕ → ℤ → List Session → List Session
invalidate_session_row now id rows =
    map (λ s. if s.id ==ℤ id then record s { status = revoked; logout_at = some now } else s) rows

pub invalidate_all_rows : ℕ → ℤ → List Session → List Session
invalidate_all_rows now identity_id rows =
    map
      (λ s.
        if s.identity_id ==ℤ identity_id && is_active_status s.status
        then record s { status = revoked; logout_at = some now }
        else s)
      rows
