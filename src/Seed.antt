-- ===== src/Seed.antt =====
-- apps/api/evidencedesk_api/seed.py: the demo accounts and their dossier. A username is unique, so the
-- row that a select by username gives is the first one.
pub mod Twice
pub mod Settle
use evidencedesk.Prelude.{ℕ, Text, Bool, true, false, List, [], ◌∷◌, ◌==◌, if◌then◌else◌, codes}
use evidencedesk.Auth.{Role}
use evidencedesk.Security.{Codec}
use evidencedesk.Db.{User, Dossier, Desk}
use evidencedesk.Python.Strings.{same}

pub record SeedSettings : Type 0 where
  pub demo_admin_enabled : Bool
  pub demo_admin_password : Text
  pub demo_analyst_password : Text
  pub demo_reader_enabled : Bool
  pub demo_reader_password : Text

-- The identifiers that the database gives to new users, and the salts that `hash_password` draws
pub record NewIds : Type 0 where
  pub admin : ℕ
  pub analyst : ℕ
  pub reader : ℕ
  pub admin_salt : ℕ
  pub analyst_salt : ℕ
  pub reader_salt : ℕ

-- The row of a username is changed, or rows are added where there is none.
unfoldable pub settle : Text → (User → User) → List User → List User → List User
unfolding same
settle username change added [] = added
settle username change added (user ∷ users) =
    let rest = settle username change added users in
    if same user.username username then change user ∷ users else user ∷ rest

abbrev pub renewed : Codec → ℕ → Text → Role → User → User
renewed codec salt password role user = record user {
  password_hash =
      if codec.verify_password password user.password_hash
      then user.password_hash
      else codec.hash_password salt password;
  role = role;
  is_active = true;
}

abbrev pub new_user : Codec → ℕ → ℕ → Text → Text → Role → User
new_user codec id salt username password role = record {
  id = id;
  username = username;
  password_hash = codec.hash_password salt password;
  role = role;
  is_active = true;
}

-- `_ensure_user`
unfoldable pub ensure_user : Codec → ℕ → ℕ → Text → Text → Role → List User → List User
unfolding settle
ensure_user codec id salt username password role users =
    settle username (renewed codec salt password role)
      (new_user codec id salt username password role ∷ []) users

abbrev pub inactive : User → User
inactive user = record user { is_active = false }

-- The branch of an account that is not enabled
unfoldable pub deactivate : Text → List User → List User
unfolding settle
deactivate username users = settle username inactive [] users

abbrev pub demo_dossier_id : ℕ
demo_dossier_id = 0x08dcdf59608643dabb5929fb37bd67f6

abbrev pub demo_dossier : Dossier
demo_dossier = record {
  id = demo_dossier_id;
  name = codes "Northwind supplier review";
  description = codes "Synthetic supplier agreement and incident evidence.";
  is_synthetic = true;
}

unfoldable pub ensure_dossier : List Dossier → List Dossier
ensure_dossier [] = demo_dossier ∷ []
ensure_dossier (d ∷ rest) =
    let later = ensure_dossier rest in if d.id == demo_dossier_id then d ∷ rest else d ∷ later

unfoldable pub seed_admin : Codec → SeedSettings → NewIds → List User → List User
unfolding ensure_user deactivate
seed_admin codec settings ids users =
    if settings.demo_admin_enabled
    then ensure_user codec ids.admin ids.admin_salt (codes "demo.admin")
        settings.demo_admin_password Role.admin users
    else deactivate (codes "demo.admin") users

unfoldable pub seed_analyst : Codec → SeedSettings → NewIds → List User → List User
unfolding ensure_user
seed_analyst codec settings ids users =
    ensure_user codec ids.analyst ids.analyst_salt (codes "demo.analyst")
      settings.demo_analyst_password Role.analyst users

unfoldable pub seed_reader : Codec → SeedSettings → NewIds → List User → List User
unfolding ensure_user deactivate
seed_reader codec settings ids users =
    if settings.demo_reader_enabled
    then ensure_user codec ids.reader ids.reader_salt (codes "demo.reader")
        settings.demo_reader_password Role.reader users
    else deactivate (codes "demo.reader") users

-- `seed_demo_data`
unfoldable pub seed_demo_data : Codec → SeedSettings → NewIds → Desk → Desk
unfolding seed_admin seed_analyst seed_reader ensure_dossier
seed_demo_data codec settings ids desk = record desk {
  users =
      seed_reader codec settings ids
        (seed_analyst codec settings ids (seed_admin codec settings ids desk.users));
  dossiers = ensure_dossier desk.dossiers;
}
