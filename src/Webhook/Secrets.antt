-- ===== src/Webhook/Secrets.antt =====
-- backend/src/webhook/webhook.service.ts. Secrets, payloads and signatures are numbers, and 0 is
-- the empty secret; `hmac` and `hex` stand for Node's createHmac and Buffer.from(_, 'hex').
pub mod Rotation
use my_fans.Common.{
  ℕ, ◌+◌, Bool, true, false, not, ◌&&◌, Option, none, some, ltb, ◌==◌, if◌then◌else◌,
}

pub record WebhookSecretState : Type 0 where
  pub active : ℕ
  pub previous : Option ℕ
  pub cutoff_at : Option ℕ

unfoldable pub rotate : (new_secret cutoff_ms now : ℕ) → WebhookSecretState → WebhookSecretState
rotate new_secret cutoff_ms now st = record {
  active = new_secret;
  previous = some st.active;
  cutoff_at = some (now + cutoff_ms);
}

unfoldable pub expire_previous : WebhookSecretState → WebhookSecretState
expire_previous st = record { active = st.active; previous = none; cutoff_at = none }

-- A value that is defined and not zero.
abbrev pub is_truthy : Option ℕ → Bool
is_truthy none = false
is_truthy (some n) = not (n == 0)

module _ (hmac : (secret payload : ℕ) → ℕ) (hex : ℕ → ℕ) where
  unfoldable pub sign : ℕ → WebhookSecretState → ℕ
  sign payload st = hmac st.active payload

  -- `timingSafeEqual` throws on two lengths, and the source answers false then.
  abbrev pub safe_compare : ℕ → ℕ → Bool
  safe_compare a b = hex a == hex b

  abbrev signed_by : Option ℕ → ℕ → ℕ → Bool
  signed_by none payload signature = false
  signed_by (some secret) payload signature = safe_compare (hmac secret payload) signature

  abbrev before : ℕ → Option ℕ → Bool
  before now none = false
  before now (some cutoff) = ltb now cutoff

  unfoldable pub verify : (payload signature now : ℕ) → WebhookSecretState → Bool
  verify payload signature now st =
      if safe_compare (hmac st.active payload) signature
      then true
      else is_truthy st.previous
        && is_truthy st.cutoff_at
        && before now st.cutoff_at
        && signed_by st.previous payload signature
