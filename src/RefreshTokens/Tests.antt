-- ===== src/RefreshTokens/Tests.antt =====
-- Refresh tokens on a list of rows, with stand-ins for the hash and for the signing.
use my_fans.Common.{ℕ, ◌+◌, ◌*◌, ◌≡◌, refl, List, [], ◌∷◌, arith}
use my_fans.Common.Actions.{ok, err}
use my_fans.Database.{Table}
use my_fans.Database.ListTable.{list_table}
use my_fans.RefreshTokens.{
  RefreshToken, token_id, same_hash, TokenPair, invalid_token, TokenConfig, Crypto, token_row,
  issued, create_refresh_token, rotate,
}
use my_fans.RefreshTokens.Rotation.{rotate_once, rotate_chain}

abbrev db : Table token_id same_hash
db = list_table token_id same_hash

abbrev crypto : Crypto
crypto = record {
  hash = λ raw. raw * 2 + 1;
  sign = λ user_id email expires_in. user_id + email + expires_in;
}

abbrev config : TokenConfig
config = record { ttl_days = 30; expires_in = 900 }

abbrev email : ℕ → ℕ
email user_id = user_id + 100

-- Token 5 of user 8, and token 6 of user 9.
abbrev stored : List RefreshToken
stored = token_row 8 11 5000 1000 0 ∷ token_row 9 13 6000 1000 1 ∷ []

abbrev left : List RefreshToken
left = token_row 8 15 2592002000 2000 2 ∷ token_row 9 13 6000 1000 1 ∷ []

abbrev pair : TokenPair
pair = issued db crypto config email 8 7

rotates : rotate db crypto config email 5 7 2000 stored ≡ (ok pair, left)
unfolding rotate create_refresh_token
rotates = refl

rotate_once_example : rotate db crypto config email 5 4 3000 left ≡ (err invalid_token, left)
rotate_once_example =
    rotate_once db crypto config email 5 7 2000 4 3000 stored left pair
      ((omega arith, tt), (tt, tt)) (omega arith) rotates

rotate_chain_example :
    (pair' : TokenPair) × (s'' : List RefreshToken) × (rotate db crypto config email 7 4 3000 left
      ≡ (ok pair', s''))
    × (pair'.user_id ≡ 8)
rotate_chain_example =
    rotate_chain db crypto config email 5 7 2000 4 3000 stored left pair
      ((omega arith, tt), (tt, tt)) rotates (omega arith) (refl, (refl, tt))
