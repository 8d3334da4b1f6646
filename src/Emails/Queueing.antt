-- ===== src/Emails/Queueing.antt =====
-- Emails that are queued twice.
use mathlib.Core.Path.{subst}
use my_fans.Common.{
  ℕ, ◌≡◌, ◌∙◌, refl, sym, ap, true, Bool, Option, none, arith, Member, inl, inr, Option-cases, ◌==◌,
}
use my_fans.Common.Actions.{ok}
use my_fans.Database.{Table}
use my_fans.Database.Laws.{Member-put, insert-IsKeyed, insert-eq-some, find_one-eq-some}
use my_fans.Emails.{
  EmailOutboxEntry, EnqueueEmailRequest, EmailMessage, entry_key, same_dedupe, new_entry, enqueue,
}
use my_fans.Emails.Delivery.{IsEntry, IsStored, IsOutbox, delivered, delivered-IsOutbox}

abbrev with_key : ℕ → EmailOutboxEntry → Bool
with_key k e = e.dedupe_key == k

module _ {Net : Type 0} (repo : Table entry_key same_dedupe)
    (send : EmailMessage → Net → Option ℕ × Net) (now : Net → ℕ) (unique_violation : ℕ) where
  open repo use {Store, rows}

  -- A key that an entry has: nothing is queued and nothing is sent.
  queued_before :
      (r : EnqueueEmailRequest) (s : Store) (net : Net) (x : EmailOutboxEntry)
      → Member x (rows s)
      → with_key r.dedupe_key x ≡ true
      → (y : EmailOutboxEntry) × (enqueue repo send now unique_violation r (s, net)
          ≡ (ok y, (s, net)))
        × (y.dedupe_key ≡ r.dedupe_key)
  unfolding enqueue
  queued_before r s net x m hit =
      let (y, found, _, hit') = find_one-eq-some repo (with_key r.dedupe_key) (λ _. 0) s x m hit in
      (y, ground arith, ground arith)

  -- A new key: the entry is stored and tried.
  queued_new :
      (r : EnqueueEmailRequest) (s : Store) (net : Net)
      → IsOutbox (rows s)
      → repo.find_one (with_key r.dedupe_key) (λ _. 0) s ≡ none
      → (e : EmailOutboxEntry) × (s' : Store) × (net' : Net) × (enqueue repo send now
            unique_violation r
            (s, net)
          ≡ (ok e, (s', net')))
        × IsOutbox (rows s')
        × Member e (rows s')
        × (e.dedupe_key ≡ r.dedupe_key)
  unfolding enqueue
  queued_new r s net ok' nobody =
      let none_has = repo.find_one-none (with_key r.dedupe_key) (λ _. 0) s nobody in
      let (e, s1, made, row, grown) =
        insert-eq-some repo (new_entry r) s (λ n. refl) (λ n. none_has) in
      let (_, _, free, _) = repo.insert-some (new_entry r) s e s1 (λ n. refl) made in
      let key : e.dedupe_key ≡ r.dedupe_key = ap (λ x. x.dedupe_key) row in
      let tries : e.attempts ≡ 0 = ap (λ x. x.attempts) row in
      let unsent : e.sent_at ≡ none = ap (λ x. x.sent_at) row in
      let ok1 : IsOutbox (rows s1) = record {
        keyed = insert-IsKeyed repo (new_entry r) s e s1 (λ n. refl) made ok'.keyed;
        distinct = rw grown (free, ok'.distinct);
        entries = rw grown (subst IsEntry (sym row) (omega arith, refl), ok'.entries);
      } in
      let here : Member e (rows s1) = rw grown (inl refl) in
      let from : IsStored (rows s1) e = (e, here, refl, refl) in
      let (e', s', net', went, done) =
        delivered repo send now unique_violation e s1 net ok1 from (omega arith) unsent in
      (
        e',
        s',
        net',
        ground arith,
        delivered-IsOutbox repo send now unique_violation e e' s1 s' ok1 from done,
        rw done.saved (Member-put entry_key e' (rows s1)),
        done.same_key ∙ key,
      )

  -- An email is queued in a well-formed outbox, which it leaves well formed, and the call throws
  -- nothing, whether the mail server takes the email or not. A second call with its key, whatever
  -- else it asks for, answers with an entry that has the key; it queues nothing and sends nothing.
  pub enqueue_once :
      (r r' : EnqueueEmailRequest) (s : Store) (net later : Net)
      → IsOutbox (rows s)
      → r'.dedupe_key ≡ r.dedupe_key
      → (e : EmailOutboxEntry) × (s' : Store) × (net' : Net) × (enqueue repo send now
            unique_violation r
            (s, net)
          ≡ (ok e, (s', net')))
        × IsOutbox (rows s')
        × ((x : EmailOutboxEntry) × (enqueue repo send now unique_violation r' (s', later)
              ≡ (ok x, (s', later)))
            × (x.dedupe_key ≡ r.dedupe_key))
  enqueue_once r r' s net later ok' same =
      elim (Option-cases (repo.find_one (with_key r.dedupe_key) (λ _. 0) s)) [
        | inr (e, found) ↦
            let (m, hit, _) = repo.find_one-some (with_key r.dedupe_key) (λ _. 0) s e found in
            let (y, went, _) = queued_before r s net e m hit in
            let (x, went', key) = queued_before r' s later e m (ground arith) in
            (y, s, net, went, ok', (x, went', key ∙ same))
        | inl nobody ↦
            let (e, s', net', went, ok'', m, key) = queued_new r s net ok' nobody in
            let (x, went', key') = queued_before r' s' later e m (ground arith) in
            (e, s', net', went, ok'', (x, went', key' ∙ same))
      ]
