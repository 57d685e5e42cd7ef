-- ===== src/Seed/Settle.antt =====
-- seed.py: what `_ensure_user` and the deactivation of an account do to the rows when they run again.
use evidencedesk.Prelude.{
  Text, true, false, List, [], ◌∷◌, ◌≡◌, refl, sym, ap, ◌∙◌, Bool-cases, inl, inr,
}
use evidencedesk.Db.{User}
use evidencedesk.Python.Strings.{same, same_sound}
use evidencedesk.Seed.{settle}

tail_of : {A : Type 0} (x y : A) (xs ys : List A) → x ∷ xs ≡ y ∷ ys → xs ≡ ys
tail_of x y xs ys e = cc

head_of : {A : Type 0} (x y : A) (xs ys : List A) → x ∷ xs ≡ y ∷ ys → x ≡ y
head_of x y xs ys e = cc

module _ (name : Text) (change : User → User) (added : List User) where
  pub settle_here :
      (u : User) (users : List User)
      → same u.username name ≡ true
      → settle name change added (u ∷ users) ≡ change u ∷ users
  unfolding settle
  settle_here u users e = rw e refl

  settle_there :
      (u : User) (users : List User)
      → same u.username name ≡ false
      → settle name change added (u ∷ users) ≡ u ∷ settle name change added users
  unfolding settle
  settle_there u users e = rw e refl

module _ (name : Text) (change rechange : User → User)
    (keeps : (u : User) → (change u).username ≡ u.username) where
  pub settle-settle :
      (added again : List User)
      → ((u : User) → rechange (change u) ≡ change u)
      → settle name rechange again added ≡ added
      → (users : List User)
      → settle name rechange again (settle name change added users) ≡ settle name change added users
  unfolding settle
  settle-settle added again twice new [] = new
  settle-settle added again twice new (u ∷ users) = elim (Bool-cases (same u.username name)) [
    | inl e ↦
        ap (settle name rechange again) (settle_here name change added u users e)
        ∙ settle_here name rechange again (change u) users (ap (λ n. same n name) (keeps u) ∙ e)
        ∙ ap (λ v. v ∷ users) (twice u)
        ∙ sym (settle_here name change added u users e)
    | inr e ↦
        ap (settle name rechange again) (settle_there name change added u users e)
        ∙ settle_there name rechange again u (settle name change added users) e
        ∙ ap (λ r. u ∷ r) (settle-settle added again twice new users)
        ∙ sym (settle_there name change added u users e)
  ]

module _ (name : Text) (change : User → User) where
  -- A step for another username keeps the list fixed.
  pub settle_apart :
      (added more : List User) (other : Text) (g : User → User)
      → ((u : User) → (g u).username ≡ u.username)
      → same name other ≡ false
      → settle name change [] more ≡ more
      → (users : List User) → settle name change added users ≡ users
      → settle name change added (settle other g more users) ≡ settle other g more users
  unfolding settle
  settle_apart added more other g keep apart new [] h = rw h new
  settle_apart added more other g keep apart new (u ∷ users) h =
      elim (Bool-cases (same u.username name)) [
        | inl e ↦
            let off = ap (λ n. same n other) (same_sound u.username name e) ∙ apart in
            let still =
              head_of (change u) u users users
                (sym (settle_here name change added u users e) ∙ h) in
            let rest = settle other g more users in
            ap (settle name change added) (settle_there other g more u users off)
            ∙ settle_here name change added u rest e
            ∙ ap (λ v. v ∷ rest) still
            ∙ sym (settle_there other g more u users off)
        | inr e ↦
            let fixed =
              tail_of u u (settle name change added users) users
                (sym (settle_there name change added u users e) ∙ h) in
            elim (Bool-cases (same u.username other)) [
              | inl f ↦
                  ap (settle name change added) (settle_here other g more u users f)
                  ∙ settle_there name change added (g u) users (ap (λ n. same n name) (keep u) ∙ e)
                  ∙ ap (λ r. g u ∷ r) fixed
                  ∙ sym (settle_here other g more u users f)
              | inr f ↦
                  ap (settle name change added) (settle_there other g more u users f)
                  ∙ settle_there name change added u (settle other g more users) e
                  ∙ ap (λ r. u ∷ r) (settle_apart added more other g keep apart new users fixed)
                  ∙ sym (settle_there other g more u users f)
            ]
      ]
