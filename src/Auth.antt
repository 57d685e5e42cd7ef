-- ===== src/Auth.antt =====
-- apps/api/evidencedesk_api/auth.py: the roles, the actions and the table that joins them.
use evidencedesk.Prelude.{ℕ, Text, Bool, true, false, List, [], ◌∷◌, ◌||◌}

pub data Role : Type 0 where
  admin analyst reader : Role

pub data Action : Type 0 where
  view_document upload_document ask_question view_extraction view_audit delete_document
        run_evaluation :
      Action

pub record UserPrincipal : Type 0 where
  pub id : ℕ
  pub username : Text
  pub role : Role

abbrev pub same_role : Role → Role → Bool
same_role Role.admin Role.admin = true
same_role Role.analyst Role.analyst = true
same_role Role.reader Role.reader = true
same_role _ _ = false

abbrev pub same_action : Action → Action → Bool
same_action Action.view_document Action.view_document = true
same_action Action.upload_document Action.upload_document = true
same_action Action.ask_question Action.ask_question = true
same_action Action.view_extraction Action.view_extraction = true
same_action Action.view_audit Action.view_audit = true
same_action Action.delete_document Action.delete_document = true
same_action Action.run_evaluation Action.run_evaluation = true
same_action _ _ = false

-- `_ROLE_ACTIONS`
unfoldable pub role_actions : Role → List Action
role_actions Role.admin =
    Action.view_document ∷ Action.upload_document ∷ Action.ask_question ∷ Action.view_extraction
    ∷ Action.view_audit ∷ Action.delete_document ∷ Action.run_evaluation ∷ []
role_actions Role.analyst =
    Action.view_document ∷ Action.upload_document ∷ Action.ask_question ∷ Action.view_extraction
    ∷ []
role_actions Role.reader = Action.view_document ∷ Action.ask_question ∷ Action.view_extraction ∷ []

-- `action in actions`
abbrev pub listed : Action → List Action → Bool
listed a [] = false
listed a (b ∷ rest) = same_action a b || listed a rest

unfoldable pub role_allows : Role → Action → Bool
unfolding role_actions
role_allows role action = listed action (role_actions role)
