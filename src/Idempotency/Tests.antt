-- ===== src/Idempotency/Tests.antt =====
-- The idempotency service on a list of rows, and the theorems at inputs that meet their hypotheses.
use my_fans.Common.{ℕ, ◌≡◌, refl, some, List, [], ◌∷◌, arith}
use my_fans.Database.{Table}
use my_fans.Database.ListTable.{list_table}
use my_fans.Idempotency.{
  IdempotencyKey, proceed, replay, in_progress, clash, id_of, in_flight, start, acquire, complete,
}
use my_fans.Idempotency.Traces.{Call, request, purge, after, acquire_exclusive, acquire-complete}

abbrev db : Table (id_of {Body = ℕ}) clash
db = list_table id_of clash

abbrev first : List (IdempotencyKey ℕ)
first = in_flight 5 9 1 2 1100 0 ∷ []

abbrev others : List (Call ℕ)
others = request 6 9 1 2 100 1010 ∷ request 5 9 1 2 100 1020 ∷ purge 1030 ∷ []

first_request : acquire db 5 9 1 2 100 1000 [] ≡ (proceed, first)
unfolding acquire start
first_request = refl

acquire_exclusive_example :
    acquire db 5 9 1 2 100 1040 (after db others first) ≡ (in_progress, after db others first)
acquire_exclusive_example =
    acquire_exclusive db 5 9 1 2 100 1000 [] first others 1 2 100 1040 tt first_request
      ((λ _. omega arith), ((λ _. omega arith), (omega arith, tt))) (omega arith)

acquire-complete_example :
    let end = after db others (complete db 5 9 201 77 (after db others first)) in
    acquire db 5 9 1 2 100 1090 end ≡ (replay (some 201) (some 77), end)
acquire-complete_example =
    acquire-complete db 5 9 1 2 100 1000 201 77 [] first others others 100 1090 tt first_request
      ((λ _. omega arith), ((λ _. omega arith), (omega arith, tt)))
      ((λ _. omega arith), ((λ _. omega arith), (omega arith, tt))) (omega arith)
