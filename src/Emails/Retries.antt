-- ===== src/Emails/Retries.antt =====
-- The ticks that send what is pending.
use mathlib.Core.Path.{subst}
use my_fans.Common.{
  ℕ, suc, ◌+◌, ◌≤◌, ◌<◌, ◌≡◌, ◌≢◌, ◌∙◌, refl, sym, ap, true, Option, none, List, [], ◌∷◌, arith,
  Member, All, All-Member, All-imp, All-of_Member, length, inl, inr, ◌⊎◌,
}
use my_fans.Common.Actions.{ok}
use my_fans.Database.{Table, put}
use my_fans.Database.Saves.{Member-put_keyed}
use my_fans.Emails.{
  pending, EmailOutboxEntry, EmailMessage, entry_key, same_dedupe, is_pending, deliver_all,
  process_pending, ticks,
}
use my_fans.Emails.Delivery.{
  IsEntry, Settled, IsStored, IsOutbox, IsDelivered, delivered, delivered-IsOutbox, IsStored-put,
}

pending_entry :
    (e : EmailOutboxEntry) → IsEntry e → e.status ≡ pending → (e.attempts < 5) × (e.sent_at ≡ none)
pending_entry e h p = let h' : Settled pending e = subst (λ s. Settled s e) p h in h'

status_pending : (e : EmailOutboxEntry) → is_pending e ≡ true → e.status ≡ pending
status_pending e h = ground arith

-- A pending entry has been tried `n` times.
abbrev pub IsTried : ℕ → EmailOutboxEntry → Type 0
IsTried n e = e.status ≡ pending → n ≤ e.attempts

-- A copy that a tick is to send.
abbrev IsDue : ℕ → List EmailOutboxEntry → EmailOutboxEntry → Type 0
IsDue n xs e = IsStored xs e × (e.attempts < 5) × (e.sent_at ≡ none) × (n ≤ e.attempts)

-- It has been tried once more, or is still to be sent.
abbrev IsNext : ℕ → List EmailOutboxEntry → EmailOutboxEntry → Type 0
IsNext n es e = e.status ≡ pending → (n + 1 ≤ e.attempts) ⊎ Member e es

module _ {Net : Type 0} (repo : Table entry_key same_dedupe)
    (send : EmailMessage → Net → Option ℕ × Net) (now : Net → ℕ) (unique_violation : ℕ) where
  open repo use {Store, rows}

  IsNext-after :
      (n : ℕ) (e e' : EmailOutboxEntry) (es : List EmailOutboxEntry) (s s' : Store)
      → IsOutbox (rows s)
      → n ≤ e.attempts
      → IsDelivered repo send now unique_violation e e' s s'
      → All (IsNext n (e ∷ es)) (rows s)
      → All (IsNext n es) (rows s')
  IsNext-after n e e' es s s' ok' tried done next = rw done.saved (
      All-of_Member (IsNext n es) (put entry_key e' (rows s)) (λ y m p.
        elim (Member-put_keyed entry_key e' y (rows s) ok'.keyed m) [
          | inl one ↦
              let st : e'.status ≡ pending = ap (λ x. x.status) (sym one) ∙ p in
              let more = done.tried st in
              let a : y.attempts ≡ e'.attempts = ap (λ x. x.attempts) one in inl (omega arith)
          | inr (old, ne) ↦ elim (All-Member (IsNext n (e ∷ es)) y (rows s) next old p) [
            | inl enough ↦ inl enough
            | inr due ↦ elim due [
              | inl one ↦
                  let k : y.id ≡ e.id = ap (λ x. x.id) one in absurd (ne (k ∙ sym done.same_id))
              | inr later ↦ inr later
            ]
          ]
        ]))

  IsDue-after :
      (n : ℕ) (e e' x : EmailOutboxEntry) (s s' : Store)
      → IsOutbox (rows s)
      → IsStored (rows s) e
      → IsDelivered repo send now unique_violation e e' s s'
      → IsDue n (rows s) x
      → IsDue n (rows s') x
  IsDue-after n e e' x s s' ok' (o, m, id, key) done (from, few, unsent, tried) = rw done.saved (
    IsStored-put e' x (rows s) ok'.keyed (o, m, id ∙ sym done.same_id, key ∙ sym done.same_key)
        from,
    few,
    unsent,
    tried,
  )

  -- A pass over the copies of `es` ends, and every pending entry has been tried once more.
  deliver_all-IsTried :
      (n : ℕ) (es : List EmailOutboxEntry) (s : Store) (net : Net)
      → IsOutbox (rows s)
      → All (IsDue n (rows s)) es
      → All (IsNext n es) (rows s)
      → (s' : Store) × (net' : Net) × (deliver_all repo send now unique_violation es (s, net)
          ≡ (ok tt, (s', net')))
        × IsOutbox (rows s')
        × All (IsTried (n + 1)) (rows s')
  deliver_all-IsTried n [] s net ok' due next = (
    s,
    net,
    refl,
    ok',
    All-imp (IsNext n []) (IsTried (n + 1)) (rows s)
        (λ e h p. elim (h p) [ inl enough ↦ enough | inr no' ↦ elim no' [ ] ]) next,
  )
  deliver_all-IsTried n (e ∷ es) s net ok' due next =
      let (from, few, unsent, tried) = due.0 in
      let (e', s', net', went, done) =
        delivered repo send now unique_violation e s net ok' from few unsent in
      let (s'', net'', rest, ok'', all) =
        deliver_all-IsTried n es s' net'
          (delivered-IsOutbox repo send now unique_violation e e' s s' ok' from done)
          (All-imp (IsDue n (rows s)) (IsDue n (rows s')) es
            (λ x h. IsDue-after n e e' x s s' ok' from done h) due.1)
          (IsNext-after n e e' es s s' ok' tried done next) in
      (s'', net'', ground arith, ok'', all)

  -- A tick ends without an error, and every pending entry has been tried once more.
  pub process_pending-IsTried :
      (n : ℕ) (s : Store) (net : Net)
      → IsOutbox (rows s)
      → All (IsTried n) (rows s)
      → (s' : Store) × (net' : Net) × (process_pending repo send now unique_violation (s, net)
          ≡ (ok tt, (s', net')))
        × IsOutbox (rows s')
        × All (IsTried (n + 1)) (rows s')
  unfolding process_pending
  process_pending-IsTried n s net ok' tried =
      deliver_all-IsTried n (repo.find is_pending s) s net ok'
        (All-of_Member (IsDue n (rows s)) (repo.find is_pending s) (λ e m.
          let (stored, p) = repo.find-Member is_pending s e m in
          let st = status_pending e p in
          let (few, unsent) =
            pending_entry e (All-Member IsEntry e (rows s) ok'.entries stored) st in
          (
            (e, stored, refl, refl),
            few,
            unsent,
            All-Member (IsTried n) e (rows s) tried stored st,
          )))
        (All-of_Member (IsNext n (repo.find is_pending s)) (rows s)
          (λ e m p. inr (repo.Member-find is_pending s e m (ground arith))))

  ticks-IsTried :
      (n : ℕ) (nets : List Net) (s : Store)
      → IsOutbox (rows s)
      → All (IsTried n) (rows s)
      → IsOutbox (rows (ticks repo send now unique_violation nets s))
        × All (IsTried (n + length nets)) (rows (ticks repo send now unique_violation nets s))
  ticks-IsTried n [] s ok' tried = (
    ok',
    All-imp (IsTried n) (IsTried (n + 0)) (rows s) (λ e h p. let l = h p in omega arith) tried,
  )
  ticks-IsTried n (net ∷ nets) s ok' tried =
      let (s', net', went, ok'', more) = process_pending-IsTried n s net ok' tried in
      let same : (process_pending repo send now unique_violation (s, net)).1.0 ≡ s' =
        ground arith in
      let (sound, all) = ticks-IsTried (n + 1) nets s' ok'' more in
      rw same (
        sound,
        All-imp (IsTried (n + 1 + length nets)) (IsTried (n + suc (length nets)))
            (rows (ticks repo send now unique_violation nets s'))
            (λ e h p. let l = h p in omega arith) all,
      )

  -- Whatever the mail server answers, and whatever happens to it between the ticks: after five
  -- ticks of processPending no entry of a well-formed outbox is pending.
  pub ticks_settle :
      (nets : List Net) (s : Store)
      → IsOutbox (rows s)
      → 5 ≤ length nets
      → All (λ e. e.status ≢ pending) (rows (ticks repo send now unique_violation nets s))
  ticks_settle nets s ok' five =
      let (sound, all) =
        ticks-IsTried 0 nets s ok' (All-of_Member (IsTried 0) (rows s) (λ e m p. omega arith)) in
      let end' = rows (ticks repo send now unique_violation nets s) in
      All-of_Member (λ e. e.status ≢ pending) end'
        (λ e m p.
          let h = All-Member (IsTried (0 + length nets)) e end' all m p in
          let (few, _) = pending_entry e (All-Member IsEntry e end' sound.entries m) p in
          omega arith)
