-- ===== src/Games/Hosts.antt =====
-- Who is next as a host.
use my_fans.Common.{
  ℕ, ◌≤◌, ◌≡◌, ◌≢◌, refl, not, none, some, List, [], ◌∷◌, arith, filter, Member, All, All-imp,
  All-Member, ap, inl, inr, ◌⊎◌, Bool-cases, leb, ◌==◌,
}
use my_fans.Database.ListTable.{filter-Member}
use my_fans.Database.Laws.{Member-filter}
use my_fans.Games.{Player, turn_of, insert_by_turn, sort_by_turn, first_user, next_host}

Member-insert_by_turn :
    (p q : Player) (xs : List Player) → Member q (insert_by_turn p xs) → (q ≡ p) ⊎ Member q xs
Member-insert_by_turn p q [] m = elim m [ inl e ↦ inl e | inr no' ↦ elim no' [ ] ]
Member-insert_by_turn p q (x ∷ xs) m = elim (Bool-cases (leb (turn_of p) (turn_of x))) [
  | inl le ↦ let m' : Member q (p ∷ x ∷ xs) = rw le at m in m'
  | inr gt ↦
      let m' : Member q (x ∷ insert_by_turn p xs) = rw gt at m in
      elim m' [
        | inl e ↦ inr (inl e)
        | inr there ↦ elim (Member-insert_by_turn p q xs there) [
          | inl e ↦ inl e
          | inr old ↦ inr (inr old)
        ]
      ]
]

Member-sort_by_turn : (q : Player) (xs : List Player) → Member q (sort_by_turn xs) → Member q xs
Member-sort_by_turn q [] m = m
Member-sort_by_turn q (x ∷ xs) m = elim (Member-insert_by_turn x q (sort_by_turn xs) m) [
  | inl e ↦ inl e
  | inr there ↦ inr (Member-sort_by_turn q xs there)
]

insert_by_turn-cons :
    (p : Player) (xs : List Player)
    → (q : Player) × (qs : List Player) × (insert_by_turn p xs ≡ q ∷ qs)
insert_by_turn-cons p [] = (p, [], refl)
insert_by_turn-cons p (x ∷ xs) = elim (Bool-cases (leb (turn_of p) (turn_of x))) [
  | inl le ↦ (p, x ∷ xs, rw le)
  | inr gt ↦ (x, insert_by_turn p xs, rw gt)
]

first_user-some :
    (v : ℕ) (xs : List Player)
    → first_user xs ≡ some v
    → (q : Player) × Member q xs × (q.user_id ≡ v)
first_user-some v [] e = absurd (ground arith)
first_user-some v (x ∷ xs) e = (x, inl refl, ground arith)

-- The next host is another player of the list.
pub next_host-some :
    (user_id v : ℕ) (ps : List Player)
    → next_host user_id ps ≡ some v
    → (q : Player) × Member q ps × (q.user_id ≡ v) × (v ≢ user_id)
next_host-some user_id v ps e =
    let p = λ (x : Player). not (x.user_id == user_id) in
    let (q, mem, user) = first_user-some v (sort_by_turn (filter p ps)) e in
    let (there, other) = filter-Member p ps q (Member-sort_by_turn q (filter p ps) mem) in
    (q, there, user, ground arith)

sort_by_turn-nil : (xs : List Player) → first_user (sort_by_turn xs) ≡ none → xs ≡ []
sort_by_turn-nil [] e = refl
sort_by_turn-nil (x ∷ xs) e =
    let (q, qs, made) = insert_by_turn-cons x (sort_by_turn xs) in
    let e' = rw made at e in absurd (ground arith)

-- No next host: nobody else was in the list.
pub next_host-none :
    (user_id : ℕ) (ps : List Player) (q : Player)
    → next_host user_id ps ≡ none
    → Member q ps
    → q.user_id ≡ user_id
next_host-none user_id ps q e mem =
    let p = λ (x : Player). not (x.user_id == user_id) in
    let empty = sort_by_turn-nil (filter p ps) e in
    elim (Bool-cases (q.user_id == user_id)) [
      | inl same ↦ ground arith
      | inr other ↦
          let there : Member q (filter p ps) = Member-filter p q ps mem (ground arith) in
          let no' : Member q [] = rw empty at there in elim no' [ ]
    ]

abbrev IsSorted : List Player → Type 0
IsSorted [] = Unit
IsSorted (x ∷ xs) = All (λ y. turn_of x ≤ turn_of y) xs × IsSorted xs

All-insert_by_turn :
    (P : Player → Type 0) (p : Player) (xs : List Player)
    → P p
    → All P xs
    → All P (insert_by_turn p xs)
All-insert_by_turn P p [] h k = (h, tt)
All-insert_by_turn P p (x ∷ xs) h k = elim (Bool-cases (leb (turn_of p) (turn_of x))) [
  | inl le ↦ rw le (h, k)
  | inr gt ↦ rw gt (k.0, All-insert_by_turn P p xs h k.1)
]

insert_by_turn-IsSorted :
    (p : Player) (xs : List Player) → IsSorted xs → IsSorted (insert_by_turn p xs)
insert_by_turn-IsSorted p [] s = (tt, tt)
insert_by_turn-IsSorted p (x ∷ xs) s = elim (Bool-cases (leb (turn_of p) (turn_of x))) [
  | inl le ↦ rw le (
    (
      ground arith,
      All-imp (λ y. turn_of x ≤ turn_of y) (λ y. turn_of p ≤ turn_of y) xs (λ y l. ground arith)
          s.0,
    ),
    s,
  )
  | inr gt ↦ rw gt (
    All-insert_by_turn (λ y. turn_of x ≤ turn_of y) p xs (ground arith) s.0,
    insert_by_turn-IsSorted p xs s.1,
  )
]

sort_by_turn-IsSorted : (xs : List Player) → IsSorted (sort_by_turn xs)
sort_by_turn-IsSorted [] = tt
sort_by_turn-IsSorted (x ∷ xs) =
    insert_by_turn-IsSorted x (sort_by_turn xs) (sort_by_turn-IsSorted xs)

insert_by_turn-Member :
    (p q : Player) (xs : List Player) → (q ≡ p) ⊎ Member q xs → Member q (insert_by_turn p xs)
insert_by_turn-Member p q [] m = m
insert_by_turn-Member p q (x ∷ xs) m = elim (Bool-cases (leb (turn_of p) (turn_of x))) [
  | inl le ↦ rw le m
  | inr gt ↦ rw gt (elim m [
    | inl e ↦ inr (insert_by_turn-Member p q xs (inl e))
    | inr there ↦ elim there [
      | inl e ↦ inl e
      | inr old ↦ inr (insert_by_turn-Member p q xs (inr old))
    ]
  ])
]

sort_by_turn-Member : (q : Player) (xs : List Player) → Member q xs → Member q (sort_by_turn xs)
sort_by_turn-Member q [] m = m
sort_by_turn-Member q (x ∷ xs) (inl e) = insert_by_turn-Member x q (sort_by_turn xs) (inl e)
sort_by_turn-Member q (x ∷ xs) (inr m) =
    insert_by_turn-Member x q (sort_by_turn xs) (inr (sort_by_turn-Member q xs m))

head_lowest :
    (v : ℕ) (xs : List Player) (y : Player)
    → IsSorted xs
    → first_user xs ≡ some v
    → Member y xs
    → (q : Player) × (q.user_id ≡ v) × Member q xs × (turn_of q ≤ turn_of y)
head_lowest v [] y s e m = elim m [ ]
head_lowest v (x ∷ xs) y s e (inl same) =
    let t : turn_of y ≡ turn_of x = ap turn_of same in (x, ground arith, inl refl, omega arith)
head_lowest v (x ∷ xs) y s e (inr m) =
    (x, ground arith, inl refl, All-Member (λ z. turn_of x ≤ turn_of z) y xs s.0 m)

-- The next host is another player of the list, with a turn no later than that of any other.
pub next_host_lowest :
    (user_id v : ℕ) (ps : List Player) (y : Player)
    → next_host user_id ps ≡ some v
    → Member y ps
    → y.user_id ≢ user_id
    → (q : Player) × (q.user_id ≡ v) × Member q ps × (turn_of q ≤ turn_of y)
next_host_lowest user_id v ps y e mem other =
    let p = λ (x : Player). not (x.user_id == user_id) in
    let xs = filter p ps in
    let there : Member y xs = Member-filter p y ps mem (ground arith) in
    let (q, user, m, low) =
      head_lowest v (sort_by_turn xs) y (sort_by_turn-IsSorted xs) e
        (sort_by_turn-Member y xs there) in
    (q, user, (filter-Member p ps q (Member-sort_by_turn q xs m)).0, low)
