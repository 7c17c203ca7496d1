-- ===== src/Auth/Tests.antt =====
-- A first admin that logs in.
use Prim.Native.String
use meshonator.Base.{◌≡◌, refl, String, Bool, some, ◌==◌, string_eq, ==_refl}
use meshonator.Db.{empty_db, minutes}
use meshonator.Db.Session.{Session, ok}
use meshonator.Auth.{CurrentUser, authenticate_user, bootstrap_admin}
use meshonator.Auth.Login.{bootstrap_admin-authenticate_user}

abbrev salted : String → String
salted password = String.◌++◌ "salt:" password

abbrev accepts : String → String → Bool
accepts password hash = salted password == hash

abbrev no_users : Session (Unit {0})
no_users = record { db = empty_db; committed = empty_db; clock = minutes; reads = 0; net = tt }

bootstrap_admin-authenticate_user_example :
    (authenticate_user accepts "admin" "secret"
      (bootstrap_admin salted "admin" "secret" "admin" no_users).1).0
    ≡ ok (some (record { username = "admin"; role = "admin" }))
bootstrap_admin-authenticate_user_example =
    bootstrap_admin-authenticate_user salted accepts "admin" "secret" "admin" no_users
      (λ text. ==_refl (salted text)) refl

abbrev root : CurrentUser
root = record { username = "root"; role = "admin" }
