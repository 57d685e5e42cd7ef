-- ===== src/Seed/Twice.antt =====
-- seed.py: one seeding after another.
use evidencedesk.Prelude.{
  ℕ, Text, Bool, true, false, List, [], ◌∷◌, ◌==◌, ◌≡◌, refl, sym, ap, ◌∙◌, codes, Bool-cases, inl,
  inr,
}
use evidencedesk.Auth.{Role}
use evidencedesk.Security.{Codec}
use evidencedesk.Db.{User, Dossier, Desk}
use evidencedesk.Python.Strings.{same, same_refl}
use evidencedesk.Seed.{
  SeedSettings, NewIds, settle, renewed, new_user, ensure_user, inactive, deactivate,
  demo_dossier_id, ensure_dossier, seed_admin, seed_analyst, seed_reader, seed_demo_data,
}
use evidencedesk.Seed.Settle.{settle_here, settle-settle, settle_apart}

module _ (codec : Codec)
    (verifies : (salt : ℕ) (p : Text)
      → codec.verify_password p (codec.hash_password salt p) ≡ true) where
  renewed-renewed :
      (salt other : ℕ) (p : Text) (role : Role) (u : User)
      → renewed codec other p role (renewed codec salt p role u) ≡ renewed codec salt p role u
  renewed-renewed salt other p role u =
      elim (Bool-cases (codec.verify_password p u.password_hash)) [
        | inl e ↦ rw (e, e) refl
        | inr e ↦ rw (e, verifies salt p) refl
      ]

  renewed_new :
      (id salt other : ℕ) (name p : Text) (role : Role)
      → renewed codec other p role (new_user codec id salt name p role)
        ≡ new_user codec id salt name p role
  renewed_new id salt other name p role = rw (verifies salt p) refl

  -- A step, with how it changes a user and the users it adds, now and when it runs again
  record Step : Type 0 where
    name : Text
    change : User → User
    rechange : User → User
    added : List User
    again : List User
    keeps : (u : User) → (change u).username ≡ u.username
    twice : (u : User) → rechange (change u) ≡ change u
    new : settle name rechange again added ≡ added

  abbrev run : Step → List User → List User
  run s users = settle s.name s.change s.added users

  abbrev rerun : Step → List User → List User
  rerun s users = settle s.name s.rechange s.again users

  abbrev Apart : Step → Step → Type 0
  Apart s t = (same s.name t.name ≡ false) × (settle s.name s.rechange [] t.added ≡ t.added)

  rerun-Apart :
      (s t : Step) (users : List User)
      → Apart s t
      → rerun s users ≡ users
      → rerun s (run t users) ≡ run t users
  rerun-Apart s t users (apart, new) h =
      settle_apart s.name s.rechange s.again t.added t.name t.change t.keeps apart new users h

  three_steps :
      (s t r : Step) (users : List User)
      → Apart s t
      → Apart s r
      → Apart t r
      → rerun r (rerun t (rerun s (run r (run t (run s users))))) ≡ run r (run t (run s users))
  three_steps s t r users st sr tr =
      let after = λ (x : Step) (u : List User).
        settle-settle x.name x.change x.rechange x.keeps x.added x.again x.twice x.new u in
      let first = run s users in
      let second = run t first in
      ap (λ u. rerun r (rerun t u))
        (rerun-Apart s r second sr (rerun-Apart s t first st (after s users)))
      ∙ ap (rerun r) (rerun-Apart t r second tr (after t first))
      ∙ after r second

  ensure_step : ℕ → ℕ → ℕ → ℕ → Text → Text → Role → Step
  ensure_step id salt other other_salt username password role = record {
    name = username;
    change = renewed codec salt password role;
    rechange = renewed codec other_salt password role;
    added = new_user codec id salt username password role ∷ [];
    again = new_user codec other other_salt username password role ∷ [];
    keeps = λ u. refl;
    twice = renewed-renewed salt other_salt password role;
    new =
        settle_here username (renewed codec other_salt password role)
          (new_user codec other other_salt username password role ∷ [])
          (new_user codec id salt username password role) [] (same_refl username)
        ∙ ap (λ u. u ∷ []) (renewed_new id salt other_salt username password role);
  }

  no_rows : (username : Text) → settle username inactive [] [] ≡ []
  unfolding settle
  no_rows username = refl

  off_step : Text → Step
  off_step username = record {
    name = username;
    change = inactive;
    rechange = inactive;
    added = [];
    again = [];
    keeps = λ u. refl;
    twice = λ u. refl;
    new = no_rows username;
  }

  module _ (settings : SeedSettings) (ids later : NewIds) where
    admin_step : Bool → Step
    admin_step true =
        ensure_step ids.admin ids.admin_salt later.admin later.admin_salt (codes "demo.admin")
          settings.demo_admin_password Role.admin
    admin_step false = off_step (codes "demo.admin")

    analyst_step : Step
    analyst_step =
        ensure_step ids.analyst ids.analyst_salt later.analyst later.analyst_salt
          (codes "demo.analyst") settings.demo_analyst_password Role.analyst

    reader_step : Bool → Step
    reader_step true =
        ensure_step ids.reader ids.reader_salt later.reader later.reader_salt (codes "demo.reader")
          settings.demo_reader_password Role.reader
    reader_step false = off_step (codes "demo.reader")

    admin_analyst : (a : Bool) → Apart (admin_step a) analyst_step
    unfolding settle same admin_step analyst_step ensure_step off_step
    admin_analyst true = (refl, refl)
    admin_analyst false = (refl, refl)

    admin_reader : (a r : Bool) → Apart (admin_step a) (reader_step r)
    unfolding settle same admin_step reader_step ensure_step off_step
    admin_reader true true = (refl, refl)
    admin_reader true false = (refl, refl)
    admin_reader false true = (refl, refl)
    admin_reader false false = (refl, refl)

    analyst_reader : (r : Bool) → Apart analyst_step (reader_step r)
    unfolding settle same analyst_step reader_step ensure_step off_step
    analyst_reader true = (refl, refl)
    analyst_reader false = (refl, refl)

    admin_run :
        (users : List User)
        → (seed_admin codec settings ids users ≡ run (admin_step settings.demo_admin_enabled) users)
          × (seed_admin codec settings later users
              ≡ rerun (admin_step settings.demo_admin_enabled) users)
    unfolding seed_admin ensure_user deactivate admin_step ensure_step off_step
    admin_run users = elim (Bool-cases settings.demo_admin_enabled) [
      | inl e ↦ rw e (refl, refl)
      | inr e ↦ rw e (refl, refl)
    ]

    analyst_run :
        (users : List User)
        → (seed_analyst codec settings ids users ≡ run analyst_step users)
          × (seed_analyst codec settings later users ≡ rerun analyst_step users)
    unfolding seed_analyst ensure_user analyst_step ensure_step
    analyst_run users = (refl, refl)

    reader_run :
        (users : List User)
        → (seed_reader codec settings ids users
            ≡ run (reader_step settings.demo_reader_enabled) users)
          × (seed_reader codec settings later users
              ≡ rerun (reader_step settings.demo_reader_enabled) users)
    unfolding seed_reader ensure_user deactivate reader_step ensure_step off_step
    reader_run users = elim (Bool-cases settings.demo_reader_enabled) [
      | inl e ↦ rw e (refl, refl)
      | inr e ↦ rw e (refl, refl)
    ]

    users_twice :
        (users : List User)
        → (let seeded : List User =
              seed_reader codec settings ids
                (seed_analyst codec settings ids (seed_admin codec settings ids users)) in
            seed_reader codec settings later
              (seed_analyst codec settings later (seed_admin codec settings later seeded))
            ≡ seeded)
    users_twice users =
        let a = admin_step settings.demo_admin_enabled in
        let r = reader_step settings.demo_reader_enabled in
        let first =
          seed_reader codec settings ids
            (seed_analyst codec settings ids (seed_admin codec settings ids users)) in
        let seeded : first ≡ run r (run analyst_step (run a users)) =
          (reader_run (seed_analyst codec settings ids (seed_admin codec settings ids users))).0
          ∙ ap (run r) (
              (analyst_run (seed_admin codec settings ids users)).0
              ∙ ap (run analyst_step) (admin_run users).0) in
        (reader_run (seed_analyst codec settings later (seed_admin codec settings later first))).1
        ∙ ap (rerun r) (
            (analyst_run (seed_admin codec settings later first)).1
            ∙ ap (rerun analyst_step) ((admin_run first).1 ∙ ap (rerun a) seeded))
        ∙ three_steps a analyst_step r users (admin_analyst settings.demo_admin_enabled)
            (admin_reader settings.demo_admin_enabled settings.demo_reader_enabled)
            (analyst_reader settings.demo_reader_enabled)
        ∙ sym seeded

    ensure_dossier-ensure_dossier :
        (ds : List Dossier) → ensure_dossier (ensure_dossier ds) ≡ ensure_dossier ds
    unfolding ensure_dossier
    ensure_dossier-ensure_dossier [] = refl
    ensure_dossier-ensure_dossier (d ∷ ds) = elim (Bool-cases (d.id == demo_dossier_id)) [
      | inl e ↦ rw (e, e) refl
      | inr e ↦ rw (e, e) (ap (λ r. d ∷ r) (ensure_dossier-ensure_dossier ds))
    ]

    -- If a password verifies against its own hash, whatever salt was drawn for it, seeding again, with
    -- whatever new identifiers and salts, changes nothing that the first seeding left.
    pub seed_demo_data_twice :
        (desk : Desk)
        → seed_demo_data codec settings later (seed_demo_data codec settings ids desk)
          ≡ seed_demo_data codec settings ids desk
    unfolding seed_demo_data
    seed_demo_data_twice desk =
        let with_users = λ (users : List User) (dossiers : List Dossier). record desk {
          users = users;
          dossiers = dossiers;
        } in
        ap (λ users. with_users users (ensure_dossier (ensure_dossier desk.dossiers)))
          (users_twice desk.users)
        ∙ ap (with_users _) (ensure_dossier-ensure_dossier desk.dossiers)
