-- ===== src/Subscriptions/Cache/Freshness.antt =====
-- A cached answer goes back to a positive check of the last minute.
use my_fans.Common.{
  ℕ, ◌+◌, ◌≤◌, ◌≡◌, refl, Bool, true, ◌&&◌, Option, none, some, List, [], ◌∷◌, arith, ◌==◌,
  if◌then◌else◌, Bool-cases, Option-cases, inl, inr,
}
use my_fans.Subscriptions.Cache.{
  positive_ttl_ms, CacheEntry, lookup, store, forget, set, get, invalidate_pair,
}

-- A call of the cache.
pub data Call : Type 0 where
  setting : (fan creator now : ℕ) → Call
  getting : (fan creator now : ℕ) → Call
  invalidating : (fan creator : ℕ) → Call

unfoldable pub call : Call → List CacheEntry → List CacheEntry
call (setting fan creator now) es = set fan creator now es
call (getting fan creator now) es = (get fan creator now es).1
call (invalidating fan creator) es = invalidate_pair fan creator es

-- The entries after some calls on an empty cache, the last call first.
unfoldable pub entries : List Call → List CacheEntry
unfolding call
entries [] = []
entries (c ∷ cs) = call c (entries cs)

abbrev pub same : ℕ → ℕ → ℕ → ℕ → Bool
same f c fan creator = (f == fan) && (c == creator)

-- When the pair was last set, if it was not invalidated since.
abbrev pub last_set : ℕ → ℕ → List Call → Option ℕ
last_set fan creator [] = none
last_set fan creator (setting f c now ∷ cs) =
    if same f c fan creator then some now else last_set fan creator cs
last_set fan creator (getting f c now ∷ cs) = last_set fan creator cs
last_set fan creator (invalidating f c ∷ cs) =
    if same f c fan creator then none else last_set fan creator cs

pub lookup-store :
    (fan creator f c x : ℕ) (es : List CacheEntry)
    → lookup fan creator (store f c x es)
      ≡ (if same f c fan creator then some x else lookup fan creator es)
lookup-store fan creator f c x [] = refl
lookup-store fan creator f c x (e ∷ es) = ground (arith, lookup-store fan creator f c x es)

pub lookup-forget :
    (fan creator f c : ℕ) (es : List CacheEntry)
    → lookup fan creator (forget f c es)
      ≡ (if same f c fan creator then none else lookup fan creator es)
lookup-forget fan creator f c [] = ground arith
lookup-forget fan creator f c (e ∷ es) = ground (arith, lookup-forget fan creator f c es)

-- An entry was made by the last call that set its pair.
lookup-entries :
    (fan creator x : ℕ) (cs : List Call)
    → lookup fan creator (entries cs) ≡ some x
    → (now : ℕ) × (last_set fan creator cs ≡ some now) × (x ≡ now + positive_ttl_ms)
unfolding entries set get invalidate_pair
lookup-entries fan creator x [] h = absurd (ground arith)
lookup-entries fan creator x (setting f c now ∷ cs) h =
    let s = lookup-store fan creator f c (now + positive_ttl_ms) (entries cs) in
    elim (Bool-cases (same f c fan creator)) [
      | inl own ↦ (now, ground arith, ground arith)
      | inr other ↦
          let (t, last, e) = lookup-entries fan creator x cs (ground arith) in (t, ground arith, e)
    ]
lookup-entries fan creator x (getting f c now ∷ cs) h =
    let s = lookup-forget fan creator f c (entries cs) in
    lookup-entries fan creator x cs (ground arith)
lookup-entries fan creator x (invalidating f c ∷ cs) h =
    let s = lookup-forget fan creator f c (entries cs) in
    elim (Bool-cases (same f c fan creator)) [
      | inl own ↦ absurd (ground arith)
      | inr other ↦
          let (t, last, e) = lookup-entries fan creator x cs (ground arith) in (t, ground arith, e)
    ]

-- Whatever calls came before, the cache answers yes only when the pair was set, at most a minute ago,
-- and was not invalidated since.
pub get_fresh :
    (fan creator now : ℕ) (cs : List Call)
    → (get fan creator now (entries cs)).0 ≡ true
    → (then' : ℕ) × (last_set fan creator cs ≡ some then') × (now ≤ then' + positive_ttl_ms)
unfolding get
get_fresh fan creator now cs yes' = elim (Option-cases (lookup fan creator (entries cs))) [
  | inl none' ↦ absurd (ground arith)
  | inr (x, found) ↦
      let (t, last, e) = lookup-entries fan creator x cs found in (t, last, ground arith)
]
