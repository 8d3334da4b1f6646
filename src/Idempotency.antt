-- ===== src/Idempotency.antt =====
-- backend/src/idempotency/idempotency-key.entity.ts and idempotency.service.ts.
-- Texts and ids are only compared, and are numbers; instants are milliseconds, one reading of the
-- clock for a call. A body is a JSON value, which its serialised text stands for.
pub mod Slots
pub mod Traces
mod Tests
use my_fans.Common.{
  ℕ, ◌+◌, Bool, true, false, not, ◌&&◌, Option, none, some, ltb, ◌==◌, if◌then◌else◌,
}
use my_fans.Database.{Table}

pub record IdempotencyKey (Body : Type 0) : Type 0 where
  pub id : ℕ
  pub key : ℕ
  pub fingerprint : ℕ
  pub method : ℕ
  pub path : ℕ
  pub response_status : Option ℕ
  pub response_body : Option Body
  pub is_complete : Bool
  pub expires_at : ℕ

-- What `acquire` returns or throws.
pub data Acquired (Body : Type 0) : Type 0 where
  proceed : Acquired Body
  replay : Option ℕ → Option Body → Acquired Body
  in_progress : Acquired Body
  other_endpoint : Acquired Body

module _ {Body : Type 0} where
  abbrev pub same_slot : ℕ → ℕ → IdempotencyKey Body → Bool
  same_slot key fingerprint r = (r.key == key) && (r.fingerprint == fingerprint)

  -- @Index(['key', 'fingerprint'], { unique: true })
  abbrev pub clash : IdempotencyKey Body → IdempotencyKey Body → Bool
  clash r x = same_slot r.key r.fingerprint x

  abbrev pub id_of : IdempotencyKey Body → ℕ
  id_of r = r.id

  abbrev pub in_flight : ℕ → ℕ → ℕ → ℕ → ℕ → ℕ → IdempotencyKey Body
  in_flight key fingerprint method path expires_at id = record {
    id = id;
    key = key;
    fingerprint = fingerprint;
    method = method;
    path = path;
    response_status = none;
    response_body = none;
    is_complete = false;
    expires_at = expires_at;
  }

  abbrev pub finished : ℕ → Body → IdempotencyKey Body → IdempotencyKey Body
  finished status body r = record r {
    response_status = some status;
    response_body = some body;
    is_complete = true;
  }

module _ {Body : Type 0} (db : Table (id_of {Body = Body}) clash) where
  open db use {Store, find_one, insert, update, delete}

  -- The insert at the end of `acquire`; a unique violation is a lost race.
  pub start : ℕ → ℕ → ℕ → ℕ → ℕ → Store → Acquired Body × Store
  start key fingerprint method path expires_at s =
      elim (insert (in_flight key fingerprint method path expires_at) s) [
        | none ↦ (in_progress, s)
        | some (r, s') ↦ (proceed, s')
      ]

  pub acquire : ℕ → ℕ → ℕ → ℕ → ℕ → ℕ → Store → Acquired Body × Store
  unfolding start
  acquire key fingerprint method path ttl now s =
      elim (find_one (same_slot key fingerprint) (λ _. 0) s) [
        | none ↦ start key fingerprint method path (now + ttl) s
        | some existing ↦
            if ltb existing.expires_at now
            then start key fingerprint method path (now + ttl) (delete (λ r. r.id == existing.id) s)
            else if not existing.is_complete
            then (in_progress, s)
            else if not ((existing.method == method) && (existing.path == path))
            then (other_endpoint, s)
            else (replay existing.response_status existing.response_body, s)
      ]

  pub complete : ℕ → ℕ → ℕ → Body → Store → Store
  complete key fingerprint status body s =
      update (same_slot key fingerprint) (finished status body) s

  pub release : ℕ → ℕ → Store → Store
  release key fingerprint s = delete (same_slot key fingerprint) s

  pub purge_expired : ℕ → Store → Store
  purge_expired now s = delete (λ r. ltb r.expires_at now) s
