-- ===== src/Webhook/Secrets/Rotation.antt =====
-- Which signatures pass after a rotation, and which no longer do.
use my_fans.Common.{ℕ, ◌+◌, ◌≤◌, ◌<◌, ◌≡◌, ◌≢◌, true, arith, ◌⊎◌}
use my_fans.Webhook.Secrets.{WebhookSecretState, rotate, expire_previous, sign, verify}

module _ (hmac : (secret payload : ℕ) → ℕ) (hex : ℕ → ℕ) where
  -- What was signed before a rotation passes until the cutoff, unless the secret was empty; what is
  -- signed after it passes at once.
  pub verify-rotate :
      (payload new_secret cutoff_ms now later : ℕ) (st : WebhookSecretState)
      → st.active ≢ 0
      → later < now + cutoff_ms
      → let st' = rotate new_secret cutoff_ms now st in
        (verify hmac hex payload (sign hmac hex payload st) later st' ≡ true)
        × (verify hmac hex payload (sign hmac hex payload st') later st' ≡ true)
  unfolding verify rotate sign
  verify-rotate payload new_secret cutoff_ms now later st real before = ground arith

  -- From the cutoff on, or once the previous secret is expired, only signatures of the active secret
  -- pass.
  pub verify_cutoff :
      (payload signature new_secret cutoff_ms now later : ℕ) (st : WebhookSecretState)
      → now + cutoff_ms ≤ later
      → let st' = rotate new_secret cutoff_ms now st in
        (verify hmac hex payload signature later st' ≡ true
          → hex (hmac new_secret payload) ≡ hex signature)
        × (verify hmac hex payload signature now (expire_previous st') ≡ true
            → hex (hmac new_secret payload) ≡ hex signature)
  unfolding verify rotate expire_previous
  verify_cutoff payload signature new_secret cutoff_ms now later st past =
      ((λ ok'. ground arith), λ ok'. ground arith)

  -- After two rotations only the two newer secrets count, however soon they followed on one another:
  -- the secret before them is of no more use.
  pub verify_rotated_twice :
      (payload signature first second cutoff_ms cutoff_ms' now now' later : ℕ)
      (st : WebhookSecretState)
      → verify hmac hex payload signature later
          (rotate second cutoff_ms' now' (rotate first cutoff_ms now st))
        ≡ true
      → (hex (hmac second payload) ≡ hex signature) ⊎ (hex (hmac first payload) ≡ hex signature)
  unfolding verify rotate
  verify_rotated_twice payload signature first second cutoff_ms cutoff_ms' now now' later st ok' =
      ground arith
