-- ===== src/Idempotency/Traces.antt =====
-- Any sequence of calls of idempotency.service.ts: what is stored for one slot is kept by the calls
-- of other callers, by retries and by the purge, for as long as it is live.
use mathlib.Core.Path.{subst}
use my_fans.Common.{
  ℕ, ◌+◌, ◌≤◌, ◌≡◌, refl, sym, Bool, true, false, ◌&&◌, some, List, [], ◌∷◌, arith, All, Member,
  All-Member, All-imp, All-map, inl, inr, Option-cases, Bool-cases, ltb, ◌==◌, ==_iff, not,
}
use my_fans.Database.{Table, IsKeyed, patch}
use my_fans.Database.Laws.{
  All-filter, Member-filter, Member-map-patch, filter-IsKeyed, insert-IsKeyed, IsKeyed-eq,
  map-patch-IsKeyed,
}
use my_fans.Idempotency.{
  IdempotencyKey, proceed, replay, in_progress, same_slot, clash, id_of, in_flight, finished, start,
  acquire, complete, release, purge_expired,
}
use my_fans.Idempotency.Slots.{
  IsSlot, IsHeld, IsDone, IsSlot-find_one, acquire_held, acquire_done, acquire-IsSlot,
  complete-IsSlot, complete-IsKeyed, acquire-IsKeyed,
}

-- A call of the service, with the instant at which it reads the clock.
pub data Call (Body : Type 0) : Type 0 where
  request : (key fingerprint method path ttl now : ℕ) → Call Body
  finish : (key fingerprint status : ℕ) → Body → Call Body
  abandon : (key fingerprint : ℕ) → Call Body
  purge : (now : ℕ) → Call Body

abbrev pub is_slot : ℕ → ℕ → ℕ → ℕ → Bool
is_slot key fingerprint k f = (k == key) && (f == fingerprint)

-- The calls that leave one slot alone: those for other slots, retries of its request before
-- `until`, and purges before `until`.
abbrev pub IsHarmless : {Body : Type 0} → ℕ → ℕ → ℕ → Call Body → Type 0
IsHarmless key fingerprint until (request k f m p ttl now) =
    is_slot key fingerprint k f ≡ true → now ≤ until
IsHarmless key fingerprint until (finish k f status body) = is_slot key fingerprint k f ≡ false
IsHarmless key fingerprint until (abandon k f) = is_slot key fingerprint k f ≡ false
IsHarmless key fingerprint until (purge now) = now ≤ until

module _ {Body : Type 0} (db : Table (id_of {Body = Body}) clash) where
  open db use {Store, rows, find_one, insert, update, delete}

  pub step : Call Body → Store → Store
  step (request key fingerprint method path ttl now) s =
      (acquire db key fingerprint method path ttl now s).1
  step (finish key fingerprint status body) s = complete db key fingerprint status body s
  step (abandon key fingerprint) s = release db key fingerprint s
  step (purge now) s = purge_expired db now s

  pub after : List (Call Body) → Store → Store
  unfolding step
  after [] s = s
  after (c ∷ cs) s = after cs (step c s)

  -- A slot with what it holds, in a table with primary keys.
  abbrev pub IsKept : (IdempotencyKey Body → Type 0) → ℕ → ℕ → Store → Type 0
  IsKept Q key fingerprint s = IsKeyed id_of (rows s) × IsSlot Q key fingerprint (rows s)

module _ {Body : Type 0} (db : Table (id_of {Body = Body}) clash) (Q : IdempotencyKey Body → Type 0)
    (key fingerprint until : ℕ)
    (live : (x : IdempotencyKey Body) → Q x → until ≤ x.expires_at) where
  open db use {Store, rows, find_one, insert, update, delete}

  abbrev Kept : Store → Type 0
  Kept s = IsKept db Q key fingerprint s

  insert-Kept :
      (k f m p e : ℕ) (s : Store) (r : IdempotencyKey Body) (s' : Store)
      → is_slot key fingerprint k f ≡ false
      → insert (in_flight k f m p e) s ≡ some (r, s')
      → Kept s
      → Kept s'
  insert-Kept k f m p e s r s' other made (keyed, (x, mem, hit, all)) =
      let (same, _, _, grown) = db.insert-some (in_flight k f m p e) s r s' (λ n. refl) made in
      (
        insert-IsKeyed db (in_flight k f m p e) s r s' (λ n. refl) made keyed,
        rw grown (x, inr mem, hit, ((λ yes'. absurd (ground arith)), all)),
      )

  delete-Kept :
      (p : IdempotencyKey Body → Bool) (s : Store)
      → ((x : IdempotencyKey Body)
          → Member x (rows s)
          → same_slot key fingerprint x ≡ true
          → Q x
          → p x ≡ false)
      → Kept s
      → Kept (delete p s)
  delete-Kept p s spares (keyed, (x, mem, hit, all)) =
      let keep = λ (y : IdempotencyKey Body). not (p y) in
      let kept : keep x ≡ true =
        let miss =
          spares x mem hit
            (All-Member (λ y. same_slot key fingerprint y ≡ true → Q y) x (rows s) all mem hit) in
        ground arith in
      (
        rw (db.rows-delete p s) (filter-IsKeyed id_of keep (rows s) keyed),
        rw (db.rows-delete p s) (
          x,
          Member-filter keep x (rows s) mem kept,
          hit,
          All-filter (λ y. same_slot key fingerprint y ≡ true → Q y) keep (rows s) all,
        ),
      )

  -- Finishing another slot's row does not touch this one's.
  patch_other :
      (k f status : ℕ) (body : Body) (x : IdempotencyKey Body)
      → is_slot key fingerprint k f ≡ false
      → (same_slot key fingerprint x ≡ true → Q x)
      → same_slot key fingerprint (patch (same_slot k f) (finished status body) x) ≡ true
      → Q (patch (same_slot k f) (finished status body) x)
  patch_other k f status body x other held hit = elim (Bool-cases (same_slot k f x)) [
    | inl theirs ↦ absurd (ground arith)
    | inr miss ↦
        let same : x ≡ patch (same_slot k f) (finished status body) x = rw miss in
        subst Q same (held (ground arith))
  ]

  complete-Kept :
      (k f status : ℕ) (body : Body) (s : Store)
      → is_slot key fingerprint k f ≡ false
      → Kept s
      → Kept (complete db k f status body s)
  unfolding complete
  complete-Kept k f status body s other (keyed, (x, mem, hit, all)) =
      let p = same_slot k f in
      let g = finished status body in
      (
        rw (db.rows-update p g s) (map-patch-IsKeyed id_of p g (rows s) (λ y. refl) keyed),
        rw (db.rows-update p g s) (
          patch p g x,
          Member-map-patch p g x (rows s) mem,
          ground arith,
          All-map (λ y. same_slot key fingerprint y ≡ true → Q y) (patch p g) (rows s)
              (All-imp (λ y. same_slot key fingerprint y ≡ true → Q y)
                (λ y. same_slot key fingerprint (patch p g y) ≡ true → Q (patch p g y)) (rows s)
                (λ y. patch_other k f status body y other) all),
        ),
      )

  start-Kept :
      (k f m p e : ℕ) (s : Store)
      → is_slot key fingerprint k f ≡ false
      → Kept s
      → Kept (start db k f m p e s).1
  unfolding start
  start-Kept k f m p e s other kept = elim (Option-cases (insert (in_flight k f m p e) s)) [
    | inl clashes ↦ rw (clashes, start) kept
    | inr ((r, s'), made) ↦ rw (made, start) (insert-Kept k f m p e s r s' other made kept)
  ]

  -- A retry leaves the table as it is.
  retry_keeps :
      (k f m p ttl now : ℕ) (s : Store)
      → is_slot key fingerprint k f ≡ true
      → now ≤ until
      → IsSlot Q key fingerprint (rows s)
      → (acquire db k f m p ttl now s).1 ≡ s
  unfolding acquire
  retry_keeps k f m p ttl now s same le slot =
      let (r, e, q) = IsSlot-find_one db Q key fingerprint s slot in
      let alive = live r q in
      let e1 : k ≡ key = ground arith in let e2 : f ≡ fingerprint = ground arith in ground arith

  -- The row that another slot's request removes is not one of this slot.
  spares :
      (k f : ℕ) (old x : IdempotencyKey Body) (xs : List (IdempotencyKey Body))
      → is_slot key fingerprint k f ≡ false
      → IsKeyed id_of xs
      → Member old xs
      → same_slot k f old ≡ true
      → Member x xs
      → same_slot key fingerprint x ≡ true
      → (x.id == old.id) ≡ false
  spares k f old x xs other keyed mo ho mx hx = elim (Bool-cases (x.id == old.id)) [
    | inl same ↦
        let e : x ≡ old = IsKeyed-eq id_of x old xs keyed mx mo ((==_iff _ _).0 same) in
        absurd (ground arith)
    | inr ne ↦ ne
  ]

  acquire-Kept :
      (k f m p ttl now : ℕ) (s : Store)
      → is_slot key fingerprint k f ≡ false
      → Kept s
      → Kept (acquire db k f m p ttl now s).1
  unfolding acquire
  acquire-Kept k f m p ttl now s other kept =
      elim (Option-cases (find_one (same_slot k f) (λ _. 0) s)) [
        | inl new ↦ rw (new, acquire) (start-Kept k f m p (now + ttl) s other kept)
        | inr (old, e) ↦
            let (mem, hit, _) = db.find_one-some (same_slot k f) (λ _. 0) s old e in
            elim (Bool-cases (ltb old.expires_at now)) [
              | inl late ↦
                  let rest =
                    delete-Kept (λ r. r.id == old.id) s
                      (λ x mx hx q. spares k f old x (rows s) other kept.0 mem hit mx hx) kept in
                  let same : (start db k f m p (now + ttl) (delete (λ r. r.id == old.id) s)).1
                      ≡ (acquire db k f m p ttl now s).1 =
                    ground arith in
                  subst Kept same (start-Kept k f m p (now + ttl) _ other rest)
              | inr alive ↦
                  let same : s ≡ (acquire db k f m p ttl now s).1 = ground arith in
                  subst Kept same kept
            ]
      ]

  step-Kept :
      (c : Call Body) (s : Store) → IsHarmless key fingerprint until c → Kept s → Kept (step db c s)
  unfolding step purge_expired release
  step-Kept (request k f m p ttl now) s harmless kept =
      elim (Bool-cases (is_slot key fingerprint k f)) [
        | inl same ↦
            subst Kept (sym (retry_keeps k f m p ttl now s same (harmless same) kept.1)) kept
        | inr other ↦ acquire-Kept k f m p ttl now s other kept
      ]
  step-Kept (finish k f status body) s other kept = complete-Kept k f status body s other kept
  step-Kept (abandon k f) s other kept =
      delete-Kept (same_slot k f) s (λ x mem hit q. ground arith) kept
  step-Kept (purge now) s le kept =
      delete-Kept (λ r. ltb r.expires_at now) s
        (λ x mem hit q. let alive = live x q in ground arith) kept

  -- Whatever others do, the slot stays as it is.
  pub after-Kept :
      (cs : List (Call Body)) (s : Store)
      → All (IsHarmless key fingerprint until) cs
      → Kept s
      → Kept (after db cs s)
  unfolding after
  after-Kept [] s harmless kept = kept
  after-Kept (c ∷ cs) s harmless kept =
      after-Kept cs (step db c s) harmless.1 (step-Kept c s harmless.0 kept)

module _ {Body : Type 0} (db : Table (id_of {Body = Body}) clash) where
  open db use {Store, rows}

  -- From the moment at which a request may proceed until its slot expires, whatever other callers do
  -- (other slots' requests, completions and releases, retries of this request, purges), every retry
  -- with the same key and fingerprint is refused as in progress and changes nothing.
  pub acquire_exclusive :
      (key fingerprint method path ttl now : ℕ) (s s' : Store) (cs : List (Call Body))
      (method' path' ttl' now' : ℕ)
      → IsKeyed id_of (rows s)
      → acquire db key fingerprint method path ttl now s ≡ (proceed, s')
      → All (IsHarmless key fingerprint (now + ttl)) cs
      → now' ≤ now + ttl
      → acquire db key fingerprint method' path' ttl' now' (after db cs s')
        ≡ (in_progress, after db cs s')
  acquire_exclusive key fingerprint method path ttl now s s' cs method' path' ttl' now' keyed e
        harmless le =
      let slot = acquire-IsSlot db key fingerprint method path ttl now s s' e in
      let keyed' = acquire-IsKeyed db key fingerprint method path ttl now s s' e keyed in
      let kept =
        after-Kept db (IsHeld method path (now + ttl)) key fingerprint (now + ttl) (λ x q. q.live)
          cs s' harmless (keyed', slot) in
      acquire_held db key fingerprint method path (now + ttl) method' path' ttl' now'
        (after db cs s') kept.1 le

  -- Once the request has finished, and whatever other callers did before and after that, a retry on
  -- the same endpoint before the slot expires gets the stored status and body back.
  pub acquire-complete :
      (key fingerprint method path ttl now status : ℕ) (body : Body) (s s' : Store)
      (before later : List (Call Body)) (ttl' now' : ℕ)
      → IsKeyed id_of (rows s)
      → acquire db key fingerprint method path ttl now s ≡ (proceed, s')
      → All (IsHarmless key fingerprint (now + ttl)) before
      → All (IsHarmless key fingerprint (now + ttl)) later
      → now' ≤ now + ttl
      → let end = after db later (complete db key fingerprint status body (after db before s')) in
        acquire db key fingerprint method path ttl' now' end
        ≡ (replay (some status) (some body), end)
  acquire-complete key fingerprint method path ttl now status body s s' before later ttl' now' keyed
        e hb hl le =
      let until = now + ttl in
      let slot = acquire-IsSlot db key fingerprint method path ttl now s s' e in
      let keyed' = acquire-IsKeyed db key fingerprint method path ttl now s s' e keyed in
      let held =
        after-Kept db (IsHeld method path until) key fingerprint until (λ x q. q.live) before s' hb
          (keyed', slot) in
      let done =
        complete-IsSlot db key fingerprint method path until status body (after db before s')
          held.1 in
      let kept =
        after-Kept db (IsDone method path until status body) key fingerprint until (λ x q. q.live)
          later (complete db key fingerprint status body (after db before s')) hl
          (complete-IsKeyed db key fingerprint status body (after db before s') held.0, done) in
      acquire_done db key fingerprint method path until status body ttl' now' _ kept.1 le
