-- ===== src/Requests/Examples.antt =====
-- An operator who stops a run twice with one key, and a request of another operator.
use nanasa.Prelude.{
  ◌∷◌, ℕ, ◌≤◌, ◌⊎◌, ◌++◌, ◌+◌, ◌==◌, ◌≡◌, refl, List, [], arith, if◌then◌else◌, keep,
}
use nanasa.Requests.Keys.{
  KeyRow, Request, Fault, done, failed, Execution, Operation, Outcome, is_kept, answer_completed,
  answer_row, claim_found, claim_key, completing, complete_key, run_claimed, execute_key, committed,
}
use nanasa.Requests.Once.{here, next, executed_once}
use nanasa.Requests.Settled.{retained_row, unknown_runs}

program : Unit {0}
unfolding answer_completed answer_row claim_found claim_key completing complete_key run_claimed
    execute_key
program = tt

abbrev stop : Request
stop = record { principal_id = "anna"; route_id = "runs.stop"; key = "k1"; request_digest = "d1" }

abbrev start : Request
start = record { principal_id = "bert"; route_id = "runs.start"; key = "k1"; request_digest = "d2" }

-- The other tables are a counter here.
abbrev bump : Operation ℕ
bump n = done (n + 1, record { status_code = 200; response = "stopped" })

abbrev first : List KeyRow × ℕ
first = committed (execute_key bump stop 1000 1001 [] 0) [] 0

abbrev second : List KeyRow × ℕ
second = committed (execute_key bump start 2000 2001 first.0 first.1) first.0 first.1

executed_once_example :
    execute_key bump (record stop { request_digest = "d1" }) 3000 3001 second.0 second.1 ≡ (
      if stop.request_digest == "d1"
      then done (Execution.replayed 200 "stopped", keep (is_kept 3000) second.0, second.1)
      else failed Fault.request_conflict)
executed_once_example =
    executed_once bump bump stop "d1" 1000 1001 3000 3001 [] first.0 second.0 0 first.1 second.1 200
      "stopped" (unfold program in refl) (next here bump start 2000 2001 (omega arith))
      (omega arith)

second_ran : second.1 ≡ 2
unfolding program
second_ran = refl

unknown_runs_example :
    ((f : Fault)
      → bump first.1 ≡ failed f
      → execute_key bump start 2000 2001 first.0 first.1 ≡ failed f)
    × ((n : ℕ) (out : Outcome)
        → bump first.1 ≡ done (n, out)
        → 200 ≤ out.status_code
        → out.status_code ≤ 499
        → execute_key bump start 2000 2001 first.0 first.1
          ≡ done (
            Execution.executed out.status_code out.response,
            keep (is_kept 2000) first.0 ++ retained_row start out 2001 ∷ [],
            n,
          ))
    × ((n : ℕ) (out : Outcome)
        → bump first.1 ≡ done (n, out)
        → (out.status_code ≤ 199) ⊎ (500 ≤ out.status_code)
        → execute_key bump start 2000 2001 first.0 first.1 ≡ failed Fault.not_retained)
unknown_runs_example =
    unknown_runs bump start 2000 2001 5000 0 first.1 first.0
      (next here bump stop 1000 1001 (omega arith)) (unfold program in refl)
