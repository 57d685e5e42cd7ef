-- ===== src/Examples/Seeding.antt =====
-- The theorem on the seeding (seed.py) at a desk with one user and an account that is not enabled.
use evidencedesk.Prelude.{◌≡◌, Text, Bool, [], ◌∷◌, true, false, none, codes}
use evidencedesk.Security.{Codec}
use evidencedesk.Python.Strings.{same, same_refl}
use evidencedesk.Seed.{SeedSettings, NewIds, seed_demo_data}
use evidencedesk.Seed.Twice.{seed_demo_data_twice}
use evidencedesk.Examples.{empty_desk}

-- A hash is the salt and the password.
abbrev verify : Text → Text → Bool
verify p [] = false
verify p (salt ∷ hashed) = same p hashed

abbrev codec : Codec
codec = record {
  encode = λ secret claims. secret;
  decode = λ secret token clock. none;
  hash_password = λ salt p. salt ∷ p;
  verify_password = verify;
}

abbrev settings : SeedSettings
settings = record {
  demo_admin_enabled = false;
  demo_admin_password = codes "a";
  demo_analyst_password = codes "b";
  demo_reader_enabled = true;
  demo_reader_password = codes "c";
}

abbrev ids : NewIds
ids = record {
  admin = 10;
  analyst = 11;
  reader = 12;
  admin_salt = 1;
  analyst_salt = 2;
  reader_salt = 3;
}

abbrev later : NewIds
later = record {
  admin = 20;
  analyst = 21;
  reader = 22;
  admin_salt = 4;
  analyst_salt = 5;
  reader_salt = 6;
}

seed_demo_data_twice_example :
    seed_demo_data codec settings later (seed_demo_data codec settings ids empty_desk)
    ≡ seed_demo_data codec settings ids empty_desk
seed_demo_data_twice_example =
    seed_demo_data_twice codec (λ salt. same_refl) settings ids later empty_desk
