-- ===== src/Auth/Passwords/Links.antt =====
-- Reset links from their request to their use.
use open_city_planner.Base.{
  count, Uuid, Time, List, Text, ◌≡◌, Token, Option-cases, ◌≤◌, update, find, ◌==◌, inl, arith,
  ◌++◌, inr, ◌∷◌, [], count-update-eq-zero, false, refl, Bool-cases, count-append,
}
use open_city_planner.Auth.Jwt.{Crypto}
use open_city_planner.Auth.Store.{Settings, Db, ResetToken, Request}
use open_city_planner.Auth.Passwords.{
  forgot_password, reset_password, reset_with, request_reset, reset_for_user, open_for,
  invalidate_at, new_reset_token,
}
use open_city_planner.Auth.Accounts.{Passwords, get_user_by_email}
use open_city_planner.Auth.Sessions.{revoke_all_sessions}
use open_city_planner.Auth.Issue.{get_user_by_id}
use open_city_planner.Auth.Passwords.Reset.{
  IsSingleOpen, close_tokens-open-le, invalidate_at-open-le,
}

-- A request closes the older links of the user and opens one.
requested-open :
    (user_id : Uuid) (now : Time) (owner : Uuid) (tokens : List ResetToken) (new : ResetToken)
    → new.user_id ≡ owner
    → count (open_for user_id) tokens ≤ 1
    → count (open_for user_id) (update (open_for owner) (invalidate_at now) tokens ++ new ∷ []) ≤ 1
unfolding count
requested-open user_id now owner tokens new same h = elim (Bool-cases (owner == user_id)) [
  | inl mine ↦
      let e : owner ≡ user_id = ground arith in
      ground (
        arith,
        count-append (open_for user_id) (update (open_for owner) (invalidate_at now) tokens)
            (new ∷ []),
        requested_zero user_id owner now tokens e,
      )
  | inr others ↦ ground (
    arith,
    count-append (open_for user_id) (update (open_for owner) (invalidate_at now) tokens) (new ∷ []),
    invalidate_at-open-le user_id now (open_for owner) tokens,
    not_mine user_id owner new same others,
  )
]
  where
    requested_zero :
        (a b : Uuid) (t : Time) (l : List ResetToken)
        → b ≡ a
        → count (open_for a) (update (open_for b) (invalidate_at t) l) ≡ 0
    requested_zero a b t l q = rw q (
        count-update-eq-zero (open_for a) (open_for a) (invalidate_at t) l
          (λ x _. unfold open_for invalidate_at in ground arith) (λ x k. k))

    not_mine :
        (a b : Uuid) (x : ResetToken) → x.user_id ≡ b → (b == a) ≡ false → open_for a x ≡ false
    not_mine a b x q k = unfold open_for in ground arith

module _ (c : Crypto) (s : Settings) where
  forgot_password-IsSingleOpen :
      (db : Db) (now : Time) (email : Text) (request : Request) (id : Uuid) (token : Token)
      → IsSingleOpen db
      → IsSingleOpen (forgot_password c s db now email request id token)
  unfolding forgot_password request_reset
  forgot_password-IsSingleOpen db now email request id token single user_id =
      elim (Option-cases (get_user_by_email db email)) [
        | inl unknown ↦ ground (arith, single user_id)
        | inr (found, e) ↦ elim (Option-cases (get_user_by_id db found.id)) [
          | inl gone ↦ ground (arith, single user_id)
          | inr (u, there) ↦ ground (
            arith,
            single user_id,
            requested-open user_id now u.id db.reset_tokens
                (new_reset_token c s now u request id token) refl,
          )
        ]
      ]

  reset_password-IsSingleOpen :
      (pw : Passwords) (db : Db) (now : Time) (token : Token) (password : Text)
      → IsSingleOpen db
      → IsSingleOpen (reset_password pw c db now token password).1
  unfolding reset_password reset_with reset_for_user revoke_all_sessions
  reset_password-IsSingleOpen pw db now token password single user_id =
      elim (Option-cases (find (λ t. t.token_hash == c.hash_token token) db.reset_tokens)) [
        | inl unknown ↦ ground (arith, single user_id)
        | inr (r, found) ↦
            ground (arith, single user_id, close_tokens-open-le user_id now r db.reset_tokens)
      ]

  -- Requests of reset links, for known and unknown addresses, and uses of links, valid or not, leave
  -- at most one open link of each user, if there was at most one before.
  pub links-IsSingleOpen :
      (pw : Passwords) (db : Db) (now : Time)
      → IsSingleOpen db
      → ((email : Text) (request : Request) (id : Uuid) (token : Token)
          → IsSingleOpen (forgot_password c s db now email request id token))
        × ((token : Token) (password : Text)
            → IsSingleOpen (reset_password pw c db now token password).1)
  links-IsSingleOpen pw db now single = (
    λ email request id token. forgot_password-IsSingleOpen db now email request id token single,
    λ token password. reset_password-IsSingleOpen pw db now token password single,
  )
