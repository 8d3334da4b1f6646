-- ===== src/Emails/Delivery.antt =====
-- What one delivery does to the outbox.
use my_fans.Common.{
  ℕ, ◌+◌, ◌<◌, ◌≡◌, ◌≢◌, ◌∙◌, refl, sym, ap, Option, none, some, List, arith, Member, All, inl, inr,
  Bool-cases, Option-cases, leb, ◌==◌,
}
use my_fans.Common.Actions.{ok}
use my_fans.Database.{Table, IsKeyed, put}
use my_fans.Database.Laws.{All-put, put-IsKeyed, IsKeyed-eq, Member-put, Member-put_other}
use my_fans.Database.Saves.{IsDistinct, IsDistinct-eq, conflicts_others}
use my_fans.Database.Replacing.{put-IsDistinct}
use my_fans.Emails.{
  EmailOutboxStatus, pending, sent, failed, EmailOutboxEntry, EmailMessage, entry_key, same_dedupe,
  message, marked_sent, marked_failed, deliver,
}

-- By its status: a pending entry has tries left and has not been sent; a sent entry has its time and
-- no error; a failed entry has used its five tries, has not been sent and has its error.
abbrev pub Settled : EmailOutboxStatus → EmailOutboxEntry → Type 0
Settled pending e = (e.attempts < 5) × (e.sent_at ≡ none)
Settled sent e = (e.attempts < 5) × (e.sent_at ≢ none) × (e.last_error ≡ none)
Settled failed e = (e.attempts ≡ 5) × (e.sent_at ≡ none) × (e.last_error ≢ none)

abbrev pub IsEntry : EmailOutboxEntry → Type 0
IsEntry e = Settled e.status e

-- The row that a copy of an entry was read from is still there.
abbrev pub IsStored : List EmailOutboxEntry → EmailOutboxEntry → Type 0
IsStored xs e = (o : EmailOutboxEntry) × Member o xs × (o.id ≡ e.id) × (o.dedupe_key ≡ e.dedupe_key)

pub record IsOutbox (xs : List EmailOutboxEntry) : Type 0 where
  pub keyed : IsKeyed entry_key xs
  pub distinct : IsDistinct same_dedupe xs
  pub entries : All IsEntry xs

marked_sent-IsEntry : (at : ℕ) (e : EmailOutboxEntry) → e.attempts < 5 → IsEntry (marked_sent at e)
marked_sent-IsEntry at e few = (few, (λ no'. ground arith), refl)

marked_failed-IsEntry :
    (error : ℕ) (e : EmailOutboxEntry)
    → e.attempts < 5
    → e.sent_at ≡ none
    → IsEntry (marked_failed error e)
marked_failed-IsEntry error e few unsent = elim (Bool-cases (leb 5 (e.attempts + 1))) [
  | inl last ↦ rw last (ground arith, unsent, λ no'. ground arith)
  | inr more ↦ rw more (ground arith, unsent)
]

-- A saved entry keeps what other copies were read from.
pub IsStored-put :
    (r e : EmailOutboxEntry) (xs : List EmailOutboxEntry)
    → IsKeyed entry_key xs
    → IsStored xs r
    → IsStored xs e
    → IsStored (put entry_key r xs) e
IsStored-put r e xs keyed (o, m, id, key) (q, n, id', key') = elim (Bool-cases (q.id == r.id)) [
  | inr ne ↦ (q, Member-put_other entry_key r q xs ne n, id', key')
  | inl same ↦
      let one = IsKeyed-eq entry_key q o xs keyed n m (ground arith) in
      let k : q.dedupe_key ≡ o.dedupe_key = ap (λ x. x.dedupe_key) one in
      (r, Member-put entry_key r xs, ground arith, ground arith)
]

module _ {Net : Type 0} (repo : Table entry_key same_dedupe)
    (send : EmailMessage → Net → Option ℕ × Net) (now : Net → ℕ) (unique_violation : ℕ) where
  open repo use {Store, rows}

  -- What a delivery of `e` has written: `e'`.
  pub record IsDelivered (e e' : EmailOutboxEntry) (s s' : Store) : Type 0 where
    pub saved : rows s' ≡ put entry_key e' (rows s)
    pub same_id : e'.id ≡ e.id
    pub same_key : e'.dedupe_key ≡ e.dedupe_key
    pub entry : IsEntry e'
    pub tried : e'.status ≡ pending → e'.attempts ≡ e.attempts + 1

  save_stored :
      (e' : EmailOutboxEntry) (s : Store)
      → IsOutbox (rows s)
      → IsStored (rows s) e'
      → (s' : Store) × (repo.save e' s ≡ some s') × (rows s' ≡ put entry_key e' (rows s))
  save_stored e' s ok' (o, m, id, key) = elim (Option-cases (repo.save e' s)) [
    | inr (s', e) ↦ (s', e, (repo.save-some e' s s' e).0)
    | inl refused ↦
        let no' = repo.save-none e' s refused in
        let yes' = conflicts_others entry_key same_dedupe e' (rows s) (λ x n ne.
          elim (Bool-cases (same_dedupe e' x)) [
            | inr other ↦ other
            | inl clash ↦
                let one =
                  IsDistinct-eq same_dedupe o x (rows s) ok'.distinct m n (ground arith)
                    (ground arith) in
                let same : o.id ≡ x.id = ap (λ y. y.id) one in absurd (ground arith)
          ]) in
        absurd (ground arith)
  ]

  -- The copy `e` of a stored entry that is pending: its delivery goes through, whatever is sent.
  pub delivered :
      (e : EmailOutboxEntry) (s : Store) (net : Net)
      → IsOutbox (rows s)
      → IsStored (rows s) e
      → e.attempts < 5
      → e.sent_at ≡ none
      → (e' : EmailOutboxEntry) × (s' : Store) × (net' : Net) × (deliver repo send now
            unique_violation e
            (s, net)
          ≡ (ok e', (s', net')))
        × IsDelivered e e' s s'
  unfolding deliver
  delivered e s net ok' from few unsent =
      let (refused, net') = send (message e) net in
      elim (Option-cases refused) [
        | inl fine ↦
            let e' = marked_sent (now net') e in
            let (s', written, saved) = save_stored e' s ok' from in
            (
              e',
              s',
              net',
              ground arith,
              record {
                saved = saved;
                same_id = refl;
                same_key = refl;
                entry = marked_sent-IsEntry (now net') e few;
                tried = λ no'. ground arith;
              },
            )
        | inr (error, why) ↦
            let e' = marked_failed error e in
            let (s', written, saved) = save_stored e' s ok' from in
            (
              e',
              s',
              net',
              ground arith,
              record {
                saved = saved;
                same_id = refl;
                same_key = refl;
                entry = marked_failed-IsEntry error e few unsent;
                tried = λ _. refl;
              },
            )
      ]

  -- A delivery keeps the outbox well formed.
  pub delivered-IsOutbox :
      (e e' : EmailOutboxEntry) (s s' : Store)
      → IsOutbox (rows s)
      → IsStored (rows s) e
      → IsDelivered e e' s s'
      → IsOutbox (rows s')
  delivered-IsOutbox e e' s s' ok' (o, m, id, key) done =
      let id' : o.id ≡ e'.id = id ∙ sym done.same_id in
      let key' : e'.dedupe_key ≡ o.dedupe_key = done.same_key ∙ sym key in
      rw done.saved (record {
        keyed = put-IsKeyed entry_key e' (rows s) ok'.keyed;
        distinct =
            put-IsDistinct entry_key e' o id' same_dedupe (rows s) ok'.keyed m (λ y. cc) (λ y. cc)
              ok'.distinct;
        entries = All-put IsEntry entry_key e' (rows s) done.entry ok'.entries;
      })
