-- ===== src/Idempotency/Slots.antt =====
-- What the service has stored for one pair of a key and a fingerprint, and how each operation of
-- idempotency.service.ts changes it.
use my_fans.Common.{
  ℕ, ◌+◌, ◌≤◌, ◌≡◌, refl, true, false, not, ◌&&◌, some, List, arith, All, Member, All-Member,
  All-imp, All-map, inl, inr, Option-cases, Bool-cases, ltb, ◌==◌,
}
use my_fans.Database.{Table, IsKeyed, patch}
use my_fans.Database.Laws.{
  find_one-eq-some, Member-map-patch, insert-IsKeyed, filter-IsKeyed, map-patch-IsKeyed,
}
use my_fans.Idempotency.{
  IdempotencyKey, proceed, replay, in_progress, other_endpoint, same_slot, clash, id_of, in_flight,
  finished, start, acquire, complete,
}

module _ {Body : Type 0} where
  -- The slot is taken, and every row of it (there is one) satisfies `Q`.
  abbrev pub IsSlot : (IdempotencyKey Body → Type 0) → ℕ → ℕ → List (IdempotencyKey Body) → Type 0
  IsSlot Q key fingerprint xs =
      (r : IdempotencyKey Body) × Member r xs
      × (same_slot key fingerprint r ≡ true)
      × All (λ x. same_slot key fingerprint x ≡ true → Q x) xs

  -- A request for this endpoint is being processed, until `until` at least.
  pub record IsHeld (verb route until : ℕ) (r : IdempotencyKey Body) : Type 0 where
    pub running : r.is_complete ≡ false
    pub method : r.method ≡ verb
    pub path : r.path ≡ route
    pub live : until ≤ r.expires_at

  -- Its response is kept, until `until` at least.
  pub record IsDone (verb route until code : ℕ) (answer : Body) (r : IdempotencyKey Body)
      : Type 0 where
    pub finished : r.is_complete ≡ true
    pub method : r.method ≡ verb
    pub path : r.path ≡ route
    pub status : r.response_status ≡ some code
    pub body : r.response_body ≡ some answer
    pub live : until ≤ r.expires_at

  patch-IsDone :
      (key fingerprint method path until status : ℕ) (body : Body) (x : IdempotencyKey Body)
      → (same_slot key fingerprint x ≡ true → IsHeld method path until x)
      → same_slot key fingerprint (patch (same_slot key fingerprint) (finished status body) x)
        ≡ true
      → IsDone method path until status body
          (patch (same_slot key fingerprint) (finished status body) x)
  patch-IsDone key fingerprint method path until status body x held hit =
      elim (Bool-cases (same_slot key fingerprint x)) [
        | inl here ↦ let h = held here in ground arith
        | inr miss ↦ absurd (ground arith)
      ]

module _ {Body : Type 0} (db : Table (id_of {Body = Body}) clash) where
  open db use {Store, rows, find_one, delete}

  pub IsSlot-find_one :
      (Q : IdempotencyKey Body → Type 0) (key fingerprint : ℕ) (s : Store)
      → IsSlot Q key fingerprint (rows s)
      → (r : IdempotencyKey Body) × (find_one (same_slot key fingerprint) (λ _. 0) s ≡ some r) × Q r
  IsSlot-find_one Q key fingerprint s (x, m, hit, all) =
      let (r, e, m', hit') = find_one-eq-some db (same_slot key fingerprint) (λ _. 0) s x m hit in
      (r, e, All-Member (λ y. same_slot key fingerprint y ≡ true → Q y) r (rows s) all m' hit')

  -- While the first request is processed, another with its key is refused.
  pub acquire_held :
      (key fingerprint method path until : ℕ) (method' path' ttl now : ℕ) (s : Store)
      → IsSlot (IsHeld method path until) key fingerprint (rows s)
      → now ≤ until
      → acquire db key fingerprint method' path' ttl now s ≡ (in_progress, s)
  unfolding acquire
  acquire_held key fingerprint method path until method' path' ttl now s h le =
      let (r, e, held) = IsSlot-find_one (IsHeld method path until) key fingerprint s h in
      ground arith

  -- A kept response is replayed for the endpoint that it belongs to.
  pub acquire_done :
      (key fingerprint method path until status : ℕ) (body : Body) (ttl now : ℕ) (s : Store)
      → IsSlot (IsDone method path until status body) key fingerprint (rows s)
      → now ≤ until
      → acquire db key fingerprint method path ttl now s ≡ (replay (some status) (some body), s)
  unfolding acquire
  acquire_done key fingerprint method path until status body ttl now s h le =
      let (r, e, done) =
        IsSlot-find_one (IsDone method path until status body) key fingerprint s h in
      ground arith

  -- For any other endpoint the key is refused.
  pub acquire_done_other :
      (key fingerprint method path until status : ℕ) (body : Body) (method' path' ttl now : ℕ)
      (s : Store)
      → IsSlot (IsDone method path until status body) key fingerprint (rows s)
      → now ≤ until
      → ((method == method') && (path == path')) ≡ false
      → acquire db key fingerprint method' path' ttl now s ≡ (other_endpoint, s)
  unfolding acquire
  acquire_done_other key fingerprint method path until status body method' path' ttl now s h le ne =
      let (r, e, done) =
        IsSlot-find_one (IsDone method path until status body) key fingerprint s h in
      ground arith

  start-eq-proceed :
      (key fingerprint method path until : ℕ) (s s' : Store)
      → start db key fingerprint method path until s ≡ (proceed, s')
      → (r : IdempotencyKey Body) × (db.insert (in_flight key fingerprint method path until) s
          ≡ some (r, s'))
  unfolding start
  start-eq-proceed key fingerprint method path until s s' e =
      elim (Option-cases (db.insert (in_flight key fingerprint method path until) s)) [
        | inl clashes ↦ ground arith
        | inr ((r, t), made) ↦ (r, ground arith)
      ]

  start-IsSlot :
      (key fingerprint method path until : ℕ) (s s' : Store)
      → start db key fingerprint method path until s ≡ (proceed, s')
      → IsSlot (IsHeld method path until) key fingerprint (rows s')
  start-IsSlot key fingerprint method path until s s' e =
      let (r, made) = start-eq-proceed key fingerprint method path until s s' e in
      let (same, _, free, grown) =
        db.insert-some (in_flight key fingerprint method path until) s r s' (λ n. refl) made in
      let mine : same_slot key fingerprint r ≡ true = ground arith in
      let others =
        All-imp (λ x. clash r x ≡ false)
          (λ x. same_slot key fingerprint x ≡ true → IsHeld method path until x) (rows s)
          (λ x no' yes'. absurd (ground arith)) free in
      rw grown (r, inl refl, mine, ((λ _. ground arith), others))

  start-IsKeyed :
      (key fingerprint method path until : ℕ) (s s' : Store)
      → start db key fingerprint method path until s ≡ (proceed, s')
      → IsKeyed id_of (rows s)
      → IsKeyed id_of (rows s')
  start-IsKeyed key fingerprint method path until s s' e keyed =
      let (r, made) = start-eq-proceed key fingerprint method path until s s' e in
      insert-IsKeyed db (in_flight key fingerprint method path until) s r s' (λ n. refl) made keyed

  -- A request that may proceed holds its slot for the time that was asked for.
  pub acquire-IsSlot :
      (key fingerprint method path ttl now : ℕ) (s s' : Store)
      → acquire db key fingerprint method path ttl now s ≡ (proceed, s')
      → IsSlot (IsHeld method path (now + ttl)) key fingerprint (rows s')
  unfolding acquire
  acquire-IsSlot key fingerprint method path ttl now s s' e =
      let begin = start-IsSlot key fingerprint method path (now + ttl) in
      elim (Option-cases (find_one (same_slot key fingerprint) (λ _. 0) s)) [
        | inl new ↦ begin s s' (ground arith)
        | inr (r, old) ↦ elim (Bool-cases (ltb r.expires_at now)) [
          | inl late ↦ begin (delete (λ x. x.id == r.id) s) s' (ground arith)
          | inr live ↦ absurd (ground arith)
        ]
      ]

  -- Storing the response turns a held slot into a finished one.
  pub complete-IsSlot :
      (key fingerprint method path until status : ℕ) (body : Body) (s : Store)
      → IsSlot (IsHeld method path until) key fingerprint (rows s)
      → IsSlot
          (IsDone method path until status body)
          key
          fingerprint
          (rows (complete db key fingerprint status body s))
  unfolding complete
  complete-IsSlot key fingerprint method path until status body s (r, m, hit, all) =
      let p = same_slot key fingerprint in
      let f = finished status body in
      rw (db.rows-update p f s) (
        patch p f r,
        Member-map-patch p f r (rows s) m,
        ground arith,
        All-map (λ x. p x ≡ true → IsDone method path until status body x) (patch p f) (rows s)
            (All-imp (λ x. p x ≡ true → IsHeld method path until x)
              (λ x. p (patch p f x) ≡ true → IsDone method path until status body (patch p f x))
              (rows s) (patch-IsDone key fingerprint method path until status body) all),
      )

  pub complete-IsKeyed :
      (key fingerprint status : ℕ) (body : Body) (s : Store)
      → IsKeyed id_of (rows s)
      → IsKeyed id_of (rows (complete db key fingerprint status body s))
  unfolding complete
  complete-IsKeyed key fingerprint status body s keyed =
      let p = same_slot key fingerprint in
      rw (db.rows-update p (finished status body) s)
        (map-patch-IsKeyed id_of p (finished status body) (rows s) (λ x. refl) keyed)

  -- The table keeps its primary keys through `acquire`.
  pub acquire-IsKeyed :
      (key fingerprint method path ttl now : ℕ) (s s' : Store)
      → acquire db key fingerprint method path ttl now s ≡ (proceed, s')
      → IsKeyed id_of (rows s)
      → IsKeyed id_of (rows s')
  unfolding acquire
  acquire-IsKeyed key fingerprint method path ttl now s s' e keyed =
      elim (Option-cases (find_one (same_slot key fingerprint) (λ _. 0) s)) [
        | inl new ↦ start-IsKeyed key fingerprint method path (now + ttl) s s' (ground arith) keyed
        | inr (r, old) ↦ elim (Bool-cases (ltb r.expires_at now)) [
          | inl late ↦
              start-IsKeyed key fingerprint method path (now + ttl) (delete (λ x. x.id == r.id) s)
                s' (ground arith)
                (rw (db.rows-delete (λ x. x.id == r.id) s)
                  (filter-IsKeyed id_of (λ x. not (x.id == r.id)) (rows s) keyed))
          | inr live ↦ absurd (ground arith)
        ]
      ]
