-- ===== src/Auth/Login.antt =====
-- Who is let in.
use Prim.Native.Nat.{◌≤◌}
use meshonator.Base.{
  ℕ, ◌≡◌, refl, ap, ◌∙◌, String, Bool, true, Option, none, some, List, [], ◌∷◌, ◌++◌, ◌==◌,
  if◌then◌else◌, string_eq, find?, arith, ==_refl,
}
use meshonator.Db.{UserModel}
use meshonator.Db.Session.{Session, Result, ok}
use meshonator.Auth.{
  CurrentUser, role_order, granted, require_session_user, require_role, is_login, authenticate_user,
  bootstrap_admin, checked, add_user, user_of,
}

find-added :
    (username : String) (users : List UserModel) (u : UserModel)
    → find? (λ v. v.username == username) users ≡ none
    → u.username ≡ username
    → u.is_active ≡ true
    → find? (is_login username) (users ++ u ∷ []) ≡ some u
find-added username [] u absent name active = ground (arith, name, active, ==_refl username)
find-added username (v ∷ users) u absent name active =
    ground (arith, absent, find-added username users u)

module _ {N : Type 0} (hash_password : String → String)
    (verify_password : String → String → Bool) where
  -- For a hash that the check of passwords accepts for the password it was made from: the account
  -- that `bootstrap_admin` makes where no user has the name can log in with its password, and has
  -- the given role.
  pub bootstrap_admin-authenticate_user :
      (username password role : String) (s : Session N)
      → ((text : String) → verify_password text (hash_password text) ≡ true)
      → find? (λ u. u.username == username) s.db.users ≡ none
      → (authenticate_user verify_password username password
          (bootstrap_admin hash_password username password role s).1).0
        ≡ ok (some (record { username = username; role = role }))
  unfolding authenticate_user bootstrap_admin
  bootstrap_admin-authenticate_user username password role s accepts absent =
      let new : UserModel = record {
        id = s.db.next_id;
        username = username;
        password_hash = hash_password password;
        role = role;
        is_active = true;
      } in
      let answer : Option UserModel → Result (Option CurrentUser) =
        λ found. ok (checked verify_password password found) in
      let welcome : Bool → Result (Option CurrentUser) =
        λ accepted. ok (if accepted then some (user_of new) else none) in
      ap
        (λ existing. answer (
          find? (is_login username)
            (add_user hash_password username password role existing s).1.db.users))
        absent
      ∙ ap answer (find-added username s.db.users new absent refl refl)
      ∙ ap welcome (accepts password)

-- A user who passes the check for a role passes it for every role of a lower or the same rank.
require_role-lower :
    (user : CurrentUser) (high low : String) (m n : ℕ)
    → role_order high ≡ some m
    → role_order low ≡ some n
    → n ≤ m
    → require_role high (some user) ≡ granted user
    → require_role low (some user) ≡ granted user
unfolding require_role require_session_user
require_role-lower user high low m n rank_high rank_low le passed =
    ground (arith, passed, rank_high, rank_low, le)
