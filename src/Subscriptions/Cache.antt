-- ===== src/Subscriptions/Cache.antt =====
-- backend/src/subscriptions/subscription-cache.service.ts: the Map of positive answers, by pairs of
-- addresses. No address has a colon, so the source's key tells the pair.
pub mod Freshness
use my_fans.Common.{
  ℕ, ◌+◌, Bool, true, false, ◌&&◌, Option, none, some, List, [], ◌∷◌, ltb, ◌==◌, if◌then◌else◌,
}

abbrev pub positive_ttl_ms : ℕ
positive_ttl_ms = 60000

pub record CacheEntry : Type 0 where
  pub fan : ℕ
  pub creator : ℕ
  pub expires_at : ℕ

abbrev pub is_key : ℕ → ℕ → CacheEntry → Bool
is_key fan creator e = (e.fan == fan) && (e.creator == creator)

-- `Map.get`, `Map.set` and `Map.delete`.
abbrev pub lookup : ℕ → ℕ → List CacheEntry → Option ℕ
lookup fan creator [] = none
lookup fan creator (e ∷ es) =
    if is_key fan creator e then some e.expires_at else lookup fan creator es

abbrev pub store : ℕ → ℕ → ℕ → List CacheEntry → List CacheEntry
store fan creator expires_at [] =
    record { fan = fan; creator = creator; expires_at = expires_at } ∷ []
store fan creator expires_at (e ∷ es) =
    if is_key fan creator e
    then record e { expires_at = expires_at } ∷ es
    else e ∷ store fan creator expires_at es

abbrev pub forget : ℕ → ℕ → List CacheEntry → List CacheEntry
forget fan creator [] = []
forget fan creator (e ∷ es) =
    if is_key fan creator e then forget fan creator es else e ∷ forget fan creator es

unfoldable pub set : (fan creator now : ℕ) → List CacheEntry → List CacheEntry
set fan creator now es = store fan creator (now + positive_ttl_ms) es

-- The answer, and the entries that are left.
unfoldable pub get : (fan creator now : ℕ) → List CacheEntry → Bool × List CacheEntry
get fan creator now es = elim (lookup fan creator es) [
  | none ↦ (false, es)
  | some expires_at ↦ if ltb expires_at now then (false, forget fan creator es) else (true, es)
]

unfoldable pub invalidate_pair : (fan creator : ℕ) → List CacheEntry → List CacheEntry
invalidate_pair fan creator es = forget fan creator es
