-- ===== src/Subscriptions/Guard/Visits.antt =====
-- Whoever the guard lets through was confirmed as a subscriber, at most a minute before.
use mathlib.Core.Path.{subst}
use my_fans.Common.{
  ℕ, ◌+◌, ◌≤◌, ◌≡◌, ◌≢◌, refl, true, ◌||◌, Option, some, List, [], arith, ltb, Bool-cases,
  Option-cases, inl, inr, ◌⊎◌,
}
use my_fans.Common.Text.{Text}
use my_fans.Common.Actions.{ok, Result-cases}
use my_fans.Database.{Table}
use my_fans.Subscriptions.{id_of, clash}
use my_fans.Subscriptions.Repository.{is_subscriber}
use my_fans.Subscriptions.Service.{State}
use my_fans.Subscriptions.System.{Operation, perform}
use my_fans.Subscriptions.ChainSync.{ChainReader}
use my_fans.Subscriptions.Cache.{CacheEntry, positive_ttl_ms, lookup, forget, get, set}
use my_fans.Subscriptions.Cache.Freshness.{same, lookup-store, lookup-forget}
use my_fans.Subscriptions.Guard.{
  Gate, ungated, Request, resolve, chain_confirms, admit, can_activate,
}

module _ (db : Table id_of clash) where
  open db use {Store}

  -- The index or the chain says yes.
  abbrev pub Confirms : Option ChainReader → (fan creator now : ℕ) → Store → Type 0
  Confirms chain fan creator now s =
      (is_subscriber db fan creator now s ≡ true) ⊎ (chain_confirms chain fan creator ≡ true)

  -- The index and the guard's cache after writes of the index and visits, at later and later
  -- instants, from an empty cache.
  pub data Runs : ℕ → State Store → List CacheEntry → Type 0 where
    start : (now : ℕ) (st : State Store) → Runs now st []
    write :
        {now : ℕ} {st : State Store} {es : List CacheEntry} (op : Operation) (then' : ℕ)
        → Runs now st es
        → now ≤ then'
        → Runs then' (perform db op then' st) es
    visit :
        {now : ℕ} {st : State Store} {es : List CacheEntry} (chain : Option ChainReader)
        (fan creator then' : ℕ) (es' : List CacheEntry)
        → Runs now st es
        → now ≤ then'
        → es' ≡ (admit db chain fan creator then' st.store es).1
        → Runs then' st es'

  -- At a visit of the pair at instant `t` of the run, the index or the chain said yes.
  pub Confirmed :
      (fan creator t : ℕ) {now : ℕ} {st : State Store} {es : List CacheEntry}
      → Runs now st es
      → Type 0
  Confirmed fan creator t (start now st) = ⊥
  Confirmed fan creator t (write op then' r le) = Confirmed fan creator t r
  Confirmed fan creator t (visit {st} chain f c then' es' r le same) =
      ((fan ≡ f) × (creator ≡ c) × (t ≡ then') × Confirms chain f c then' st.store)
      ⊎ Confirmed fan creator t r

  -- What a visit leaves for a pair: its old entry, or a new one, if the pair was confirmed.
  lookup-admit :
      (chain : Option ChainReader) (f c now fan creator x : ℕ) (s : Store) (es : List CacheEntry)
      → lookup fan creator (admit db chain f c now s es).1 ≡ some x
      → (lookup fan creator es ≡ some x)
        ⊎ ((fan ≡ f) × (creator ≡ c) × (x ≡ now + positive_ttl_ms) × Confirms chain f c now s)
  unfolding admit get set
  lookup-admit chain f c now fan creator x s es h =
      let kept = lookup-store fan creator f c (now + positive_ttl_ms) es in
      let renewed = lookup-store fan creator f c (now + positive_ttl_ms) (forget f c es) in
      let gone = lookup-forget fan creator f c es in
      elim (Option-cases (lookup f c es)) [
        | inl new ↦ elim (Bool-cases (is_subscriber db f c now s || chain_confirms chain f c)) [
          | inl yes' ↦ ground arith
          | inr no' ↦ inl (ground arith)
        ]
        | inr (y, old) ↦ elim (Bool-cases (ltb y now)) [
          | inr live ↦ inl (ground arith)
          | inl lapsed ↦
              elim (Bool-cases (is_subscriber db f c now s || chain_confirms chain f c)) [
                | inl yes' ↦ ground arith
                | inr no' ↦ ground arith
              ]
        ]
      ]

  -- An admission rests on a live entry, or on a confirmation.
  admit_cases :
      (chain : Option ChainReader) (f c now : ℕ) (s : Store) (es : List CacheEntry)
      → (admit db chain f c now s es).0 ≡ true
      → ((x : ℕ) × (lookup f c es ≡ some x) × (now ≤ x)) ⊎ Confirms chain f c now s
  unfolding admit get set
  admit_cases chain f c now s es yes' = elim (Option-cases (lookup f c es)) [
    | inl new ↦ inr (ground arith)
    | inr (y, old) ↦ elim (Bool-cases (ltb y now)) [
      | inr live ↦ inl (y, old, ground arith)
      | inl lapsed ↦ inr (ground arith)
    ]
  ]

  -- Every entry of the cache was made at a confirmation.
  entry-Confirmed :
      (fan creator x : ℕ) {now : ℕ} {st : State Store} {es : List CacheEntry} (r : Runs now st es)
      → lookup fan creator es ≡ some x
      → (t : ℕ) × Confirmed fan creator t r × (x ≡ t + positive_ttl_ms)
  unfolding Confirmed
  entry-Confirmed fan creator x (start now st) h = absurd (ground arith)
  entry-Confirmed fan creator x (write op then' r le) h = entry-Confirmed fan creator x r h
  entry-Confirmed fan creator x (visit {st} {es} chain f c then' es' r le left) h =
      elim (lookup-admit chain f c then' fan creator x st.store es
        (subst (λ y. lookup fan creator y ≡ some x) left h)) [
          | inl old ↦ let (t, c', e) = entry-Confirmed fan creator x r old in (t, inr c', e)
          | inr (a, b, e, says) ↦ (then', inl (a, b, refl, says), e)
        ]

  -- A request that is let through was resolved, and admitted.
  can_activate_admits :
      (text_of : ℕ → Text) (chain : Option ChainReader) (gate : Gate) (req : Request) (now : ℕ)
      (s : Store) (es : List CacheEntry)
      → gate ≢ ungated
      → (can_activate db text_of chain gate req now s es).0 ≡ ok tt
      → (fan : ℕ) × (creator : ℕ) × (resolve text_of gate req ≡ ok (fan, creator))
        × ((admit db chain fan creator now s es).0 ≡ true)
  unfolding can_activate
  can_activate_admits text_of chain ungated req now s es gated passed = absurd (gated refl)
  can_activate_admits text_of chain gate req now s es gated passed =
      elim (Result-cases (resolve text_of gate req)) [
        | inr (e, refused) ↦ absurd (ground arith)
        | inl ((fan, creator), found) ↦ elim (Bool-cases (admit db chain fan creator now s es).0) [
          | inl in' ↦ (fan, creator, found, in')
          | inr out ↦ absurd (ground arith)
        ]
      ]

  -- Whenever the guard lets a request for gated content through, the request names a fan and the route
  -- a creator, and the index or the chain has confirmed that fan for that creator, just now or at an
  -- earlier visit at most a minute ago. The writes of the index in between may have come in any order.
  pub can_activate_fresh :
      (text_of : ℕ → Text) (chain : Option ChainReader) (gate : Gate) (req : Request) (now : ℕ)
      (now' : ℕ) (st : State Store) (es : List CacheEntry) (r : Runs now st es)
      → gate ≢ ungated
      → (can_activate db text_of chain gate req now' st.store es).0 ≡ ok tt
      → (fan : ℕ) × (creator : ℕ) × (resolve text_of gate req ≡ ok (fan, creator))
        × (Confirms chain fan creator now' st.store
            ⊎ ((t : ℕ) × Confirmed fan creator t r × (now' ≤ t + positive_ttl_ms)))
  can_activate_fresh text_of chain gate req now now' st es r gated passed =
      let (fan, creator, found, in') =
        can_activate_admits text_of chain gate req now' st.store es gated passed in
      elim (admit_cases chain fan creator now' st.store es in') [
        | inr says ↦ (fan, creator, found, inl says)
        | inl (x, entry, live) ↦
            let (t, c', e) = entry-Confirmed fan creator x r entry in
            (fan, creator, found, inr (t, c', omega arith))
      ]
