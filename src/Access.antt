-- ===== src/Access.antt =====
-- Access control (internal/middleware/auth_middleware.go, helpers.go): the context that Auth fills,
-- the guards on roles and permissions, and their chains. ValidateToken of the auth service and
-- `strings.EqualFold` are parameters.
pub mod Guards
mod Tests
use zentora_backend.Prelude.{
  ℕ, ◌==◌, ◌≡◌, Bool, true, false, ◌&&◌, ◌||◌, not, Option, none, some, List, [], ◌∷◌, ◌++◌,
  if◌then◌else◌, any, all,
}
use zentora_backend.Prelude.Int.{ℤ}
use zentora_backend.Text.{Text, lit, is_empty, text_eq}

-- What a key of gin's context holds: the types that the middleware stores, and any other value.
pub data Value : Type 0 where
  int : ℤ → Value
  text : Text → Value
  texts : List Text → Value
  flag : Bool → Value
  other : Value

-- gin's context: `Set` puts a pair in front, `Get` takes the first one.
abbrev pub Context : Type 0
Context = List (Text × Value)

pub get : Text → Context → Option Value
get key [] = none
get key (p ∷ c) = if text_eq p.0 key then some p.1 else get key c

abbrev pub set : Text → Value → Context → Context
set key v c = (key, v) ∷ c

pub record Claims : Type 0 where
  pub identity_id : ℤ
  pub id : Text
  pub roles : List Text
  pub permissions : List Text
  pub device : Text
  pub session_purpose : Text
  pub is_temp : Bool
  pub extra_data : List (Text × Value)

pub record Request : Type 0 where
  pub authorization : Text
  pub query_token : Text

-- What a handler does: pass the context on, or answer with a status, which ends the chain.
pub data Reply : Type 0 where
  passed : Context → Reply
  refused : ℕ → Reply

-- `strings.Split(s, " ")`
pub split_words : Text → List Text
split_words [] = [] ∷ []
split_words (c ∷ s) = elim (c == 0x20) [
  | true ↦ [] ∷ split_words s
  | false ↦ before c (split_words s)
]
  where
    before : ℕ → List Text → List Text
    before d [] = (d ∷ []) ∷ []
    before d (w ∷ ws) = (d ∷ w) ∷ ws

-- `for key, value := range claims.ExtraData { c.Set(key, value) }`
abbrev pub set_all : List (Text × Value) → Context → Context
set_all [] c = c
set_all (p ∷ ps) c = set_all ps (set p.0 p.1 c)

abbrev pub holds : List Text → Text → Bool
holds held r = any (λ h. text_eq h r) held

-- A guard reads the list under a key: without one the answer is 403, with another type 500.
abbrev pub guarded : (List Text → Bool) → Context → Option Value → Reply
guarded test c none = refused 403
guarded test c (some (texts held)) = if test held then passed c else refused 403
guarded test c (some (int i)) = refused 500
guarded test c (some (text t)) = refused 500
guarded test c (some (flag b)) = refused 500
guarded test c (some other) = refused 500

abbrev pub holds_any : List Text → List Text → Bool
holds_any required held = any (λ h. any (λ r. text_eq h r) required) held

abbrev pub holds_all : List Text → List Text → Bool
holds_all required held = all (holds held) required

pub require_role : List Text → Context → Reply
require_role roles c = guarded (holds_any roles) c (get (lit "roles") c)

pub require_permission : List Text → Context → Reply
require_permission permissions c = guarded (holds_any permissions) c (get (lit "permissions") c)

pub require_all_roles : List Text → Context → Reply
require_all_roles roles c = guarded (holds_all roles) c (get (lit "roles") c)

pub require_all_permissions : List Text → Context → Reply
require_all_permissions permissions c =
    guarded (holds_all permissions) c (get (lit "permissions") c)

abbrev pub as_int : Option Value → Option ℤ
as_int none = none
as_int (some (int i)) = some i
as_int (some (text t)) = none
as_int (some (texts ts)) = none
as_int (some (flag b)) = none
as_int (some other) = none

pub get_identity_id : Context → Option ℤ
get_identity_id c = as_int (get (lit "identity_id") c)

abbrev pub as_texts : Option Value → List Text
as_texts none = []
as_texts (some (texts ts)) = ts
as_texts (some (int i)) = []
as_texts (some (text t)) = []
as_texts (some (flag b)) = []
as_texts (some other) = []

-- `GetRoles`, `HasRole` and `IsAdmin`.
pub get_roles : Context → List Text
get_roles c = as_texts (get (lit "roles") c)

pub has_role : Context → Text → Bool
has_role c role = holds (get_roles c) role

pub is_admin : Context → Bool
is_admin c = has_role c (lit "admin") || has_role c (lit "super_admin")

module _ (equal_fold : Text → Text → Bool) (validate_token : Text → Option Claims) where
  abbrev pub bearer : List Text → Text → Text
  bearer [] query = query
  bearer (scheme ∷ []) query = query
  bearer (scheme ∷ token ∷ []) query = if equal_fold scheme (lit "Bearer") then token else query
  bearer (scheme ∷ token ∷ third ∷ more) query = query

  -- The empty text is "no token".
  pub extract_token : Request → Text
  extract_token r =
      if is_empty r.authorization
      then r.query_token
      else bearer (split_words r.authorization) r.query_token

  abbrev pub identified : Claims → Context → Context
  identified k c = set (lit "permissions") (texts k.permissions) (
      set (lit "roles") (texts k.roles)
        (set (lit "jti") (text k.id) (set (lit "identity_id") (int k.identity_id) c)))

  abbrev pub admitted : Claims → Context → Context
  admitted k c = set_all k.extra_data (
      set (lit "is_temp") (flag k.is_temp) (
        set (lit "session_purpose") (text k.session_purpose)
          (set (lit "device") (text k.device) (identified k c))))

  pub auth : Request → Context → Reply
  auth r c =
      if is_empty (extract_token r) then refused 401 else elim (validate_token (extract_token r)) [
        | none ↦ refused 401
        | some k ↦ passed (admitted k c)
      ]

  pub optional_auth : Request → Context → Reply
  optional_auth r c =
      if is_empty (extract_token r) then passed c else elim (validate_token (extract_token r)) [
        | none ↦ passed c
        | some k ↦ passed (set (lit "authenticated") (flag true) (identified k c))
      ]

  -- The handlers of a chain, up to the first that answers.
  abbrev pub and_then : Reply → (Context → Reply) → Reply
  and_then (refused status) h = refused status
  and_then (passed c) h = h c

  pub admin_only : Request → Context → Reply
  admin_only r c = and_then (auth r c) (require_role (lit "admin" ∷ lit "super_admin" ∷ []))

  pub super_admin_only : Request → Context → Reply
  super_admin_only r c = and_then (auth r c) (require_role (lit "super_admin" ∷ []))

  pub with_permission : List Text → Request → Context → Reply
  with_permission permissions r c = and_then (auth r c) (require_permission permissions)
