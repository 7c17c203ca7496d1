-- ===== src/Auth.antt =====
-- auth/security.py: users, their passwords and their roles. The hash and the check of a password are
-- a library's, and so parameters; a request's session is the user that the login has put there.
mod Tests
pub mod Login
use meshonator.Base.{
  ℕ, ◌+◌, String, Bool, true, false, ◌&&◌, Option, none, some, List, [], ◌∷◌, ◌++◌, ◌==◌,
  if◌then◌else◌, string_eq, find?, ltb,
}
use meshonator.Db.{UserModel, Db}
use meshonator.Db.Session.{Session, Exec, pure, gets, ◌>>=◌, ◌>>◌, modify, commit, new_id}

pub record CurrentUser : Type 0 where
  pub username : String
  pub role : String

-- `ROLE_ORDER[role]`, which raises KeyError for any other role
unfoldable pub role_order : String → Option ℕ
role_order role =
    if role == "viewer"
    then some 1
    else if role == "operator"
    then some 2
    else if role == "admin"
    then some 3
    else none

-- what a route gets: the user, or the exceptions with the status 401 and 403, or a KeyError
pub data Access : Type 0 where
  granted : CurrentUser → Access
  authentication_required insufficient_role unknown_role : Access

unfoldable pub require_session_user : Option CurrentUser → Access
require_session_user none = authentication_required
require_session_user (some user) = granted user

abbrev compared_roles : CurrentUser → Option ℕ → Option ℕ → Access
compared_roles user none least = unknown_role
compared_roles user (some own) none = unknown_role
compared_roles user (some own) (some least) =
    if ltb own least then insufficient_role else granted user

-- the checker that `require_role` makes, with the dependency on the session's user
unfoldable pub require_role : String → Option CurrentUser → Access
require_role min_role session_user = elim (require_session_user session_user) [
  | granted user ↦ compared_roles user (role_order user.role) (role_order min_role)
  | refusal ↦ refusal
]

abbrev pub user_of : UserModel → CurrentUser
user_of user = record { username = user.username; role = user.role }

-- `select(UserModel).where(username == …, is_active)`
abbrev pub is_login : String → UserModel → Bool
is_login username u = u.username == username && u.is_active

abbrev pub checked : (String → String → Bool) → String → Option UserModel → Option CurrentUser
checked verify_password password none = none
checked verify_password password (some user) =
    if verify_password password user.password_hash then some (user_of user) else none

module _ {N : Type 0} where
  unfoldable pub authenticate_user :
      (String → String → Bool) → String → String → Exec N (Option CurrentUser)
  authenticate_user verify_password username password = do
    user ← gets (λ db. find? (is_login username) db.users)
    pure (checked verify_password password user)

  abbrev pub add_user :
      (String → String) → String → String → String → Option UserModel → Exec N (Unit {0})
  add_user hash_password username password role (some existing) = pure tt
  add_user hash_password username password role none = do
    id ← new_id
    modify (λ db. record db {
      users =
          db.users
          ++ (record {
            id = id;
            username = username;
            password_hash = hash_password password;
            role = role;
            is_active = true;
          })
            ∷ [];
    })
    commit

  unfoldable pub bootstrap_admin : (String → String) → String → String → String → Exec N (Unit {0})
  bootstrap_admin hash_password username password role =
      gets (λ db. find? (λ u. u.username == username) db.users) >>= λ existing.
      add_user hash_password username password role existing
