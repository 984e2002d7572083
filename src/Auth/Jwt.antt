-- ===== src/Auth/Jwt.antt =====
-- backend/app/auth/jwt.py. What PyJWT and SHA-256 compute is a parameter: `Crypto`.
use Prim.Native.String.{String}
use open_city_planner.Base.{
  Bool, true, false, Option, some, ℕ, ◌+◌, List, Time, Uuid, Token, Digest, Text, if◌then◌else◌,
}

pub data TokenType : Type 0 where
  access refresh : TokenType

abbrev pub type_eq : TokenType → TokenType → Bool
type_eq access access = true
type_eq refresh refresh = true
type_eq _ _ = false

pub data Role : Type 0 where
  superuser user : Role

-- The claims of a token. `sub` and `jti` are `none` where the claim is empty, `auth_time` where
-- it is no integer and `amr` where it is no list. The issuer and the audience are constants.
pub record Payload : Type 0 where
  pub sub : Option Uuid
  pub kind : TokenType
  pub iat : Time
  pub exp : Time
  pub jti : Option Uuid
  pub email : Option Text
  pub role : Option Role
  pub auth_time : Option ℕ
  pub amr : Option (List String)

pub data Decoded : Type 0 where
  claims : Payload → Decoded
  -- `jwt.ExpiredSignatureError`
  expired_signature : Decoded
  -- any other `jwt.PyJWTError`
  invalid_token : Decoded

-- `encode` and `decode` are PyJWT's at the configured key and algorithm, `decode` at a point in
-- time; `hash_token` is the hex digest of SHA-256.
pub record Crypto : Type 0 where
  pub encode : Payload → Token
  pub decode : Time → Token → Decoded
  pub hash_token : Token → Digest

-- The extra claims that a caller merges into the payload.
pub record Extra : Type 0 where
  pub email : Option Text
  pub role : Option Role
  pub auth_time : Option ℕ
  pub amr : Option (List String)

unfoldable pub create_payload : Time → Uuid → TokenType → ℕ → Uuid → Extra → Payload
create_payload now subject token_type expires_delta jti extra = record {
  sub = some subject;
  kind = token_type;
  iat = now;
  exp = now + expires_delta;
  jti = some jti;
  email = extra.email;
  role = extra.role;
  auth_time = extra.auth_time;
  amr = extra.amr;
}

-- `jti` is the fresh UUID that the call draws and returns beside the token.
unfoldable pub create_jwt : Crypto → Time → Uuid → TokenType → ℕ → Uuid → Extra → Token
unfolding create_payload
create_jwt c now subject token_type expires_delta jti extra =
    c.encode (create_payload now subject token_type expires_delta jti extra)

-- the test on the claim `type`
unfoldable pub check_type : TokenType → Decoded → Decoded
check_type expected (claims p) = if type_eq p.kind expected then claims p else invalid_token
check_type expected expired_signature = expired_signature
check_type expected invalid_token = invalid_token

unfoldable pub decode_jwt : Crypto → Time → Token → TokenType → Decoded
unfolding check_type
decode_jwt c now token expected_type = check_type expected_type (c.decode now token)
