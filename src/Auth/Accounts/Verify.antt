-- ===== src/Auth/Accounts/Verify.antt =====
-- The verification of an e-mail address.
use open_city_planner.Auth.Accounts.{
  verify_email, verify_user, enqueue_welcome_email, put_user, used_at_time,
}
use open_city_planner.Auth.Issue.{get_user_by_id}
use open_city_planner.Auth.Jwt.{Crypto}
use open_city_planner.Auth.Store.{Db, ok, VerificationToken, User}
use open_city_planner.Base.{
  ◌≡◌, Time, Token, Uuid, ◌==◌, Option-cases, arith, inl, inr, true, some, update, false,
  find-update, find, find_holds, ◌∙◌, refl, ap,
}

-- A user who is written back is found again.
pub get_user_by_id-put_user :
    (db : Db) (id : Uuid) (u v : User)
    → get_user_by_id db id ≡ some u
    → v.id ≡ u.id
    → get_user_by_id (put_user v db) id ≡ some v
unfolding get_user_by_id put_user
get_user_by_id-put_user db id u v e same =
    find-update (λ x. x.id == id) (λ x. x.id == v.id) (λ _. v) db.users
      (λ x h. ground (arith, find_holds (λ x. x.id == id) db.users u e)) u e
    ∙ ground arith

same_users :
    (db db' : Db) (id : Uuid) → db.users ≡ db'.users → get_user_by_id db id ≡ get_user_by_id db' id
unfolding get_user_by_id
same_users db db' id e = ap (find (λ x. x.id == id)) e

verify_user_ok :
    (db : Db) (now : Time) (r : VerificationToken) (u : User) (user_id : Uuid) (db' : Db)
    → verify_user db now r u ≡ (ok (true, user_id), db')
    → (u.id ≡ user_id)
      × (db'.users ≡ (put_user (record u { is_verified = true }) db).users)
      × (db'.verification_tokens
          ≡ update (λ x. x.id == r.id) (used_at_time now) db.verification_tokens)
unfolding verify_user enqueue_welcome_email put_user
verify_user_ok db now r u user_id db' e = ground arith

-- After a link was accepted, the same link, at any later time, answers `already_verified` for the
-- same user and changes nothing, although it is used by then.
pub verify_email_twice :
    (c : Crypto) (db : Db) (now later : Time) (token : Token) (user_id : Uuid) (db' : Db)
    → verify_email c db now token ≡ (ok (true, user_id), db')
    → verify_email c db' later token ≡ (ok (false, user_id), db')
unfolding verify_email
verify_email_twice c db now later token user_id db' e =
    elim (Option-cases (find (λ x. x.token_hash == c.hash_token token) db.verification_tokens)) [
      | inl unknown ↦ absurd (ground arith)
      | inr (r, found) ↦ elim (Option-cases (get_user_by_id db r.user_id)) [
        | inl gone ↦ absurd (ground arith)
        | inr (u, there) ↦
            let (same, users, tokens) = verify_user_ok db now r u user_id db' (ground arith) in
            let found' =
              find-update (λ x. x.token_hash == c.hash_token token) (λ x. x.id == r.id)
                (used_at_time now) db.verification_tokens (λ x _. unfold used_at_time in refl) r
                found in
            let there' =
              get_user_by_id-put_user db r.user_id u (record u { is_verified = true }) there refl in
            let again : find (λ x. x.token_hash == c.hash_token token) db'.verification_tokens
                ≡ some (used_at_time now r) =
              rw tokens (found' ∙ ground arith) in
            let again_user : get_user_by_id db' r.user_id ≡ some (record u { is_verified = true }) =
              same_users db' (put_user (record u { is_verified = true }) db) r.user_id users
              ∙ there' in
            unfold verify_user used_at_time in ground (arith, again, again_user)
      ]
    ]
