-- ===== src/Requests/Keys.antt =====
-- The table `http_idempotency_keys` and the three operations of apps/daemon/src/store.ts on it.
-- A response is its JSON text.
use nanasa.Prelude.{
  ℕ, ◌+◌, String, ◌==◌, Bool, true, false, not, ◌&&◌, ◌||◌, Option, none, some, List, [], ◌∷◌, ◌++◌,
  if◌then◌else◌, ltb, leb, nat_eq, find, keep, length, map,
}

pub data KeyState : Type 0 where
  in_progress completed : KeyState

pub record KeyRow : Type 0 where
  pub principal_id : String
  pub route_id : String
  pub key : String
  pub request_digest : String
  pub state : KeyState
  pub status_code : Option ℕ
  pub response : String
  pub expires_at : ℕ

-- The input that the three operations share.
pub record Request : Type 0 where
  pub principal_id : String
  pub route_id : String
  pub key : String
  pub request_digest : String

pub data Fault : Type 0 where
  -- idempotency_request_conflict, idempotency_outcome_uncertain, idempotency_result_invalid,
  -- idempotency_completion_conflict
  request_conflict outcome_uncertain result_invalid completion_conflict : Fault
  -- a status that is not retained
  not_retained : Fault
  -- what the operation itself throws
  thrown : String → Fault

pub data Answer {ℓ} (A : Type ℓ) : Type ℓ where
  done : A → Answer A
  failed : Fault → Answer A

infixl 5 ◌>>=◌
abbrev pub ◌>>=◌ {ℓ κ} : {A : Type ℓ} {B : Type κ} → Answer A → (A → Answer B) → Answer B
done a >>= f = f a
failed e >>= f = failed e

pub data Claim : Type 0 where
  execute : Claim
  replay : ℕ → String → Claim

pub data Execution : Type 0 where
  replayed : ℕ → String → Execution
  executed : ℕ → String → Execution

pub record Outcome : Type 0 where
  pub status_code : ℕ
  pub response : String

abbrev pub in_progress_ttl_ms : ℕ
in_progress_ttl_ms = 300000

abbrev pub retention_ms : ℕ
retention_ms = 86400000

abbrev pub is_completed : KeyState → Bool
is_completed KeyState.completed = true
is_completed KeyState.in_progress = false

-- PRIMARY KEY (principal_id, route_id, key)
abbrev pub has_key : Request → KeyRow → Bool
has_key r row =
    row.principal_id == r.principal_id && (row.route_id == r.route_id && row.key == r.key)

-- The rows that the DELETE leaves.
abbrev pub is_kept : ℕ → KeyRow → Bool
is_kept now row = not (is_completed row.state && leb row.expires_at now)

abbrev pub reserved : Request → ℕ → KeyRow
reserved r now = record {
  principal_id = r.principal_id;
  route_id = r.route_id;
  key = r.key;
  request_digest = r.request_digest;
  state = KeyState.in_progress;
  status_code = none;
  response = "null";
  expires_at = now + in_progress_ttl_ms;
}

-- What is answered for the retained row of a known key.
unfoldable pub answer_completed : Option ℕ → String → Answer Claim
answer_completed none response = failed Fault.result_invalid
answer_completed (some status) response = done (Claim.replay status response)

unfoldable pub answer_row : Request → KeyRow → Answer Claim
unfolding answer_completed
answer_row r row =
    if not (row.request_digest == r.request_digest)
    then failed Fault.request_conflict
    else if not (is_completed row.state)
    then failed Fault.outcome_uncertain
    else answer_completed row.status_code row.response

unfoldable pub claim_found :
    Request → ℕ → List KeyRow → Option KeyRow → Answer (Claim × List KeyRow)
unfolding answer_row
claim_found r now rows none = done (Claim.execute, rows ++ reserved r now ∷ [])
claim_found r now rows (some row) = answer_row r row >>= λ claim. done (claim, rows)

-- `claimHttpIdempotency`; what it fails with leaves the table as it was.
unfoldable pub claim_key : Request → ℕ → List KeyRow → Answer (Claim × List KeyRow)
unfolding claim_found
claim_key r now rows =
    let live = keep (is_kept now) rows in claim_found r now live (find (has_key r) live)

abbrev pub is_reserved : Request → KeyRow → Bool
is_reserved r row =
    has_key r row && (row.request_digest == r.request_digest && not (is_completed row.state))

abbrev pub completed_row : Outcome → ℕ → KeyRow → KeyRow
completed_row outcome now row = record row {
  state = KeyState.completed;
  status_code = some outcome.status_code;
  response = outcome.response;
  expires_at = now + retention_ms;
}

-- A row under the UPDATE.
unfoldable pub completing : Request → Outcome → ℕ → KeyRow → KeyRow
completing r outcome now row = if is_reserved r row then completed_row outcome now row else row

abbrev pub is_retained : ℕ → Bool
is_retained status = not (ltb status 200 || leb 500 status)

-- `completeHttpIdempotency`
unfoldable pub complete_key : Request → Outcome → ℕ → List KeyRow → Answer (List KeyRow)
complete_key r outcome now rows =
    if not (is_retained outcome.status_code)
    then failed Fault.not_retained
    else if not (nat_eq (length (keep (is_reserved r) rows)) 1)
    then failed Fault.completion_conflict
    else done (map (completing r outcome now) rows)

-- The operation reads and writes the other tables, S, and the table of keys is its own.
abbrev pub Operation {ℓ} : Type ℓ → Type ℓ
Operation S = S → Answer (S × Outcome)

module _ {ℓ} {S : Type ℓ} where
  abbrev pub answered : S × Outcome → List KeyRow → Execution × List KeyRow × S
  answered (s, outcome) rows = (Execution.executed outcome.status_code outcome.response, rows, s)

  abbrev pub complete_ran :
      Request → ℕ → List KeyRow → S × Outcome → Answer (Execution × List KeyRow × S)
  complete_ran r later rows ran =
      complete_key r ran.1 later rows >>= λ kept. done (answered ran kept)

  unfoldable pub run_claimed :
      Operation S → Request → ℕ → S → Claim × List KeyRow → Answer (Execution × List KeyRow × S)
  unfolding complete_key
  run_claimed operation r later s (Claim.replay status response, rows) =
      done (Execution.replayed status response, rows, s)
  run_claimed operation r later s (Claim.execute, rows) = operation s >>= complete_ran r later rows

  -- `executeHttpIdempotency`, at the time of its claim and of its completion
  unfoldable pub execute_key :
      Operation S → Request → ℕ → ℕ → List KeyRow → S → Answer (Execution × List KeyRow × S)
  unfolding claim_key run_claimed
  execute_key operation r now later rows s =
      claim_key r now rows >>= run_claimed operation r later s

  -- The tables after the transaction: a failure rolls it back.
  abbrev pub committed : Answer (Execution × List KeyRow × S) → List KeyRow → S → List KeyRow × S
  committed (done (_, rows, s)) _ _ = (rows, s)
  committed (failed _) rows s = (rows, s)
