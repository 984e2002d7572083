-- ===== src/Auth/Account/Erased.antt =====
-- What the deletion of an account leaves.
use open_city_planner.Auth.Account.{refers_to}
use open_city_planner.Base.{Uuid, count, filter, All, ◌==◌, map, ◌≡◌, ◌∷◌, [], false, some, ◌++◌}
use open_city_planner.Auth.Oauth.{AccountDb}
use open_city_planner.Auth.Store.{account_deleted}

-- No row of the user's own is left, and no foreign key to the user. The `resource_id` of the log is
-- none.
pub record IsForgotten (id : Uuid) (db : AccountDb) : Type 0 where
  pub users : count (λ x. x.id == id) db.auth.users ≡ 0
  pub sessions : count (λ x. x.user_id == id) db.auth.sessions ≡ 0
  pub verification_tokens : count (λ x. x.user_id == id) db.auth.verification_tokens ≡ 0
  pub reset_tokens : count (λ x. x.user_id == id) db.auth.reset_tokens ≡ 0
  pub methods : count (λ x. x.user_id == id) db.auth.methods ≡ 0
  pub recovery_codes : count (λ x. x.user_id == id) db.auth.recovery_codes ≡ 0
  pub challenges : count (λ x. x.user_id == id) db.auth.challenges ≡ 0
  pub passkeys : count (λ x. x == id) db.auth.passkeys ≡ 0
  pub accounts : count (λ x. x.user_id == id) db.accounts ≡ 0
  pub grants : count (refers_to id) db.grants ≡ 0
  pub audit :
      All
        (λ l. (refers_to id l.actor_user_id ≡ false) × (refers_to id l.target_user_id ≡ false))
        db.auth.audit
  pub polygons :
      All
        (λ a.
          (refers_to id a.created_by_user_id ≡ false) × (refers_to id a.updated_by_user_id ≡ false))
        db.polygons
  pub metrics : All (λ r. refers_to id r ≡ false) db.metrics
  pub social_settings : All (λ r. refers_to id r ≡ false) db.social_settings

-- What belongs to another user is as before: the rows, in their order, and the references.
pub record IsUntouched (v : Uuid) (db db' : AccountDb) : Type 0 where
  pub users : filter (λ x. x.id == v) db'.auth.users ≡ filter (λ x. x.id == v) db.auth.users
  pub sessions :
      filter (λ x. x.user_id == v) db'.auth.sessions ≡ filter (λ x. x.user_id == v) db.auth.sessions
  pub verification_tokens :
      filter (λ x. x.user_id == v) db'.auth.verification_tokens
      ≡ filter (λ x. x.user_id == v) db.auth.verification_tokens
  pub reset_tokens :
      filter (λ x. x.user_id == v) db'.auth.reset_tokens
      ≡ filter (λ x. x.user_id == v) db.auth.reset_tokens
  pub methods :
      filter (λ x. x.user_id == v) db'.auth.methods ≡ filter (λ x. x.user_id == v) db.auth.methods
  pub recovery_codes :
      filter (λ x. x.user_id == v) db'.auth.recovery_codes
      ≡ filter (λ x. x.user_id == v) db.auth.recovery_codes
  pub challenges :
      filter (λ x. x.user_id == v) db'.auth.challenges
      ≡ filter (λ x. x.user_id == v) db.auth.challenges
  pub accounts :
      filter (λ x. x.user_id == v) db'.accounts ≡ filter (λ x. x.user_id == v) db.accounts
  pub passkeys : filter (λ x. x == v) db'.auth.passkeys ≡ filter (λ x. x == v) db.auth.passkeys
  pub grants : filter (refers_to v) db'.grants ≡ filter (refers_to v) db.grants
  pub creators :
      count (λ a. refers_to v a.created_by_user_id) db'.polygons
      ≡ count (λ a. refers_to v a.created_by_user_id) db.polygons
  pub editors :
      count (λ a. refers_to v a.updated_by_user_id) db'.polygons
      ≡ count (λ a. refers_to v a.updated_by_user_id) db.polygons
  pub metrics : count (refers_to v) db'.metrics ≡ count (refers_to v) db.metrics
  pub social_settings :
      count (refers_to v) db'.social_settings ≡ count (refers_to v) db.social_settings
  pub actors :
      count (λ l. refers_to v l.actor_user_id) db'.auth.audit
      ≡ count (λ l. refers_to v l.actor_user_id) db.auth.audit
  pub targets :
      count (λ l. refers_to v l.target_user_id) db'.auth.audit
      ≡ count (λ l. refers_to v l.target_user_id) db.auth.audit

-- The log keeps the action and the `resource_id` of each entry, in their order, and ends with the
-- entry of the deletion.
pub record IsLogged (id : Uuid) (db db' : AccountDb) : Type 0 where
  pub logged_actions :
      map (λ l. l.action) db'.auth.audit ≡ map (λ l. l.action) db.auth.audit ++ account_deleted ∷ []
  pub resources :
      map (λ l. l.resource_id) db'.auth.audit
      ≡ map (λ l. l.resource_id) db.auth.audit ++ some id ∷ []
