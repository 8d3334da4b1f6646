-- ===== src/Auth/Challenge.antt =====
-- backend/src/auth/wallet-auth.service.ts and its entity. Addresses, nonces and signatures are
-- numbers; `verifies` stands for the Ed25519 check of the Stellar library (false where it throws) and
-- `sign` for the JWT library.
pub mod Replay
use my_fans.Common.{
  ℕ, ◌+◌, ◌*◌, Bool, true, false, ◌&&◌, Option, none, some, List, [], ◌∷◌, ltb, ◌==◌, if◌then◌else◌,
}
use my_fans.Common.Actions.{Result, ok, err}
use my_fans.Database.{Table}

pub record WalletChallenge : Type 0 where
  pub id : ℕ
  pub stellar_address : ℕ
  pub nonce : ℕ
  pub expires_at : ℕ
  pub used : Bool

abbrev pub challenge_id : WalletChallenge → ℕ
challenge_id r = r.id

-- @Column({ unique: true }) on nonce
abbrev pub same_nonce : WalletChallenge → WalletChallenge → Bool
same_nonce r x = r.nonce == x.nonce

pub data AuthError : Type 0 where
  challenge_not_found challenge_used challenge_expired invalid_signature save_failed : AuthError

abbrev pub challenge_ttl_seconds : ℕ
challenge_ttl_seconds = 300

abbrev pub new_challenge : (address nonce now id : ℕ) → WalletChallenge
new_challenge address nonce now id = record {
  id = id;
  stellar_address = address;
  nonce = nonce;
  expires_at = now + challenge_ttl_seconds * 1000;
  used = false;
}

abbrev pub asked : (address nonce : ℕ) → WalletChallenge → Bool
asked address nonce r = (r.stellar_address == address) && (r.nonce == nonce)

abbrev pub spend : WalletChallenge → WalletChallenge
spend r = record r { used = true }

module _ (db : Table challenge_id same_nonce) where
  open db use {Store, find_one, insert, save}

  -- `nonce` is what randomBytes draws.
  unfoldable pub create_challenge :
      (address nonce now : ℕ) → Store → Result AuthError WalletChallenge × Store
  create_challenge address nonce now s = elim (insert (new_challenge address nonce now) s) [
    | none ↦ (err save_failed, s)
    | some (r, s') ↦ (ok r, s')
  ]

  unfoldable pub find_challenge : (address nonce : ℕ) → Store → Option WalletChallenge
  find_challenge address nonce s = find_one (asked address nonce) (λ _. 0) s

  -- The call up to the signature: it reads the challenge, and writes nothing.
  unfoldable pub check_challenge :
      (verifies : ℕ → ℕ → ℕ → Bool) (address nonce signature now : ℕ)
      → Store
      → Result AuthError WalletChallenge
  unfolding find_challenge
  check_challenge verifies address nonce signature now s = elim (find_challenge address nonce s) [
    | none ↦ err challenge_not_found
    | some challenge ↦
        if challenge.used
        then err challenge_used
        else if ltb challenge.expires_at now
        then err challenge_expired
        else if verifies address nonce signature
        then ok challenge
        else err invalid_signature
  ]

  -- The rest of the call, with the challenge that it has read: the token. The publishing of
  -- UserLoggedInEvent is left out.
  unfoldable pub issue_token : (sign : ℕ → ℕ) → WalletChallenge → Store → Result AuthError ℕ × Store
  issue_token sign challenge s = elim (save (spend challenge) s) [
    | none ↦ (err save_failed, s)
    | some s' ↦ (ok (sign challenge.stellar_address), s')
  ]

  abbrev issuing :
      (sign : ℕ → ℕ) → Result AuthError WalletChallenge → Store → Result AuthError ℕ × Store
  issuing sign (err e) s = (err e, s)
  issuing sign (ok challenge) s = issue_token sign challenge s

  unfoldable pub verify_and_issue_token :
      (verifies : ℕ → ℕ → ℕ → Bool) (sign : ℕ → ℕ) (address nonce signature now : ℕ)
      → Store
      → Result AuthError ℕ × Store
  unfolding check_challenge issue_token
  verify_and_issue_token verifies sign address nonce signature now s =
      issuing sign (check_challenge verifies address nonce signature now s) s
