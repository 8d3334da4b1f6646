-- ===== src/RefreshTokens.antt =====
-- backend/src/refresh-module/refresh-token.service.ts. Raw tokens are numbers that the caller draws
-- (Node's randomBytes); `hash` stands for SHA-256, `sign` for the JWT library's signing, and `email`
-- for the relation to the user.
pub mod Rotation
mod Tests
use my_fans.Common.{ℕ, ◌+◌, ◌*◌, Bool, true, false, Option, none, some, ltb, ◌==◌, if◌then◌else◌}
use my_fans.Common.Actions.{Result, ok, err, Action, pure, throw, modify, ◌>>=◌, ◌>>◌}
use my_fans.Database.{Table}

pub record RefreshToken : Type 0 where
  pub id : ℕ
  pub user_id : ℕ
  pub token_hash : ℕ
  pub expires_at : ℕ
  pub created_at : ℕ

abbrev pub token_id : RefreshToken → ℕ
token_id r = r.id

abbrev pub hash_of : RefreshToken → ℕ
hash_of r = r.token_hash

-- @Index({ unique: true }) on token_hash
abbrev pub same_hash : RefreshToken → RefreshToken → Bool
same_hash r x = r.token_hash == x.token_hash

pub record TokenPair : Type 0 where
  pub access_token : ℕ
  pub refresh_token : ℕ
  pub expires_in : ℕ
  pub user_id : ℕ
  pub email : ℕ

pub data Error : Type 0 where
  invalid_token expired_token save_failed : Error

-- JWT_REFRESH_TTL_DAYS and JWT_ACCESS_EXPIRES_IN.
pub record TokenConfig : Type 0 where
  pub ttl_days : ℕ
  pub expires_in : ℕ

pub record Crypto : Type 0 where
  pub hash : ℕ → ℕ
  pub sign : (user_id email expires_in : ℕ) → ℕ

abbrev pub token_row : (user_id token_hash expires_at now id : ℕ) → RefreshToken
token_row user_id token_hash expires_at now id = record {
  id = id;
  user_id = user_id;
  token_hash = token_hash;
  expires_at = expires_at;
  created_at = now;
}

-- A day has 24 hours: a change of the clocks, which setDate in local time takes into account, is left
-- out.
abbrev pub expiry_of : TokenConfig → ℕ → ℕ
expiry_of config now = now + config.ttl_days * 24 * 3600 * 1000

abbrev pub has_hash : ℕ → RefreshToken → Bool
has_hash h r = r.token_hash == h

module _ (db : Table token_id same_hash) (crypto : Crypto) (config : TokenConfig)
    (email : ℕ → ℕ) where
  open db use {Store, find_one, insert, delete}

  -- `raw` is what generateRawToken draws.
  unfoldable pub create_refresh_token : (user_id raw now : ℕ) → Action Error Store ℕ
  create_refresh_token user_id raw now s =
      elim (insert (token_row user_id (crypto.hash raw) (expiry_of config now) now) s) [
        | none ↦ (err save_failed, s)
        | some (r, s') ↦ (ok raw, s')
      ]

  abbrev pub issued : (user_id new_raw : ℕ) → TokenPair
  issued user_id new_raw = record {
    access_token = crypto.sign user_id (email user_id) config.expires_in;
    refresh_token = new_raw;
    expires_in = config.expires_in;
    user_id = user_id;
    email = email user_id;
  }

  unfoldable pub rotate : (raw new_raw now : ℕ) → Action Error Store TokenPair
  unfolding create_refresh_token
  rotate raw new_raw now s = elim (find_one (has_hash (crypto.hash raw)) (λ _. 0) s) [
    | none ↦ (err invalid_token, s)
    | some stored ↦
        let s' = delete (λ r. r.id == stored.id) s in
        if ltb stored.expires_at now
        then (err expired_token, s')
        else (elim ((create_refresh_token stored.user_id new_raw now s').0) [
          | ok fresh ↦ (
            ok (issued stored.user_id fresh),
            (create_refresh_token stored.user_id new_raw now s').1,
          )
          | err e ↦ (err e, (create_refresh_token stored.user_id new_raw now s').1)
        ])
  ]

  unfoldable pub invalidate : (raw : ℕ) → Store → Store
  invalidate raw s = delete (has_hash (crypto.hash raw)) s

  unfoldable pub invalidate_all : (user_id : ℕ) → Store → Store
  invalidate_all user_id s = delete (λ r. r.user_id == user_id) s

  unfoldable pub clean_expired_tokens : (now : ℕ) → Store → Store
  clean_expired_tokens now s = delete (λ r. ltb r.expires_at now) s
