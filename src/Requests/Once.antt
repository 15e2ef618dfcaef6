-- ===== src/Requests/Once.antt =====
-- A request that was executed is not executed again (`executeHttpIdempotency`).
use nanasa.Prelude.{
  ℕ, ◌+◌, ◌<◌, String, ◌==◌, eq_refl, Bool, true, ◌≡◌, ◌≢◌, refl, ap, Option, none, some, List, [],
  ◌∷◌, ◌++◌, arith, if◌then◌else◌, find, keep, ◌∙◌,
}
use nanasa.Requests.Keys.{
  KeyRow, Request, Fault, Answer, done, failed, Claim, Execution, Outcome, Operation, retention_ms,
  has_key, is_kept, reserved, completed_row, completing, answer_completed, answer_row, claim_found,
  claim_key, complete_key, run_claimed, execute_key, committed, answered, complete_ran, ◌>>=◌,
}
use nanasa.Requests.Keeps.{
  find-map, has_key-completing, complete_key-rows, IsRetained, Retains, committed-IsRetained,
  keep-IsRetained,
}

-- Other requests, each a transaction of its own, before a time.
pub data Served {ℓ} {S : Type ℓ} (until : ℕ) (start : List KeyRow × S)
    : List KeyRow × S → Type ℓ where
  here : Served until start start
  next :
      {rows : List KeyRow} {s : S}
      → Served until start (rows, s)
      → (op : Operation S) (r : Request) (now later : ℕ) → now < until
      → Served until start (committed (execute_key op r now later rows s) rows s)

Served-IsRetained {ℓ} :
    {S : Type ℓ} (r : Request) (out : Outcome) {until : ℕ} {w w' : List KeyRow × S}
    → IsRetained r out until w.0
    → Served until w w'
    → IsRetained r out until w'.0
Served-IsRetained r out k here = k
Served-IsRetained r out k (next {rows} {s} before op r' now later h) =
    committed-IsRetained r out _ op r' now later rows s h (Served-IsRetained r out k before)

find-append_none {ℓ} :
    {A : Type ℓ} (p : A → Bool) (xs : List A) (y : A)
    → find p xs ≡ none
    → p y ≡ true
    → find p (xs ++ y ∷ []) ≡ some y
find-append_none p [] y h k = rw k
find-append_none p (x ∷ xs) y h k = ground (arith, find-append_none p xs y)

pub has_key-reserved : (r : Request) (now : ℕ) → has_key r (reserved r now) ≡ true
has_key-reserved r now = ground (arith, eq_refl r.principal_id, eq_refl r.route_id, eq_refl r.key)

pub completing-reserved :
    (r : Request) (out : Outcome) (now later : ℕ)
    → completing r out later (reserved r now) ≡ completed_row out later (reserved r now)
unfolding completing
completing-reserved r out now later =
    rw (has_key-reserved r now) (rw (eq_refl r.request_digest) refl)

answer_row-ne-execute : (r : Request) (row : KeyRow) → answer_row r row ≡ done Claim.execute → ⊥
unfolding answer_row
answer_row-ne-execute r row h = ground (arith, answer_completed-ne row.status_code row.response)
  where
    answer_completed-ne :
        (o : Option ℕ) (response : String) → answer_completed o response ≢ done Claim.execute
    answer_completed-ne none response = cc
    answer_completed-ne (some n) response = cc

pub claim_found-execute :
    (r : Request) (now : ℕ) (live : List KeyRow) (o : Option KeyRow) {rows : List KeyRow}
    → claim_found r now live o ≡ done (Claim.execute, rows)
    → (o ≡ none) × (rows ≡ live ++ reserved r now ∷ [])
unfolding claim_found
claim_found-execute r now live none h = (refl, ground arith)
claim_found-execute r now live (some row) {rows} h = absurd (go (answer_row r row) refl h)
  where
    go :
        (a : Answer Claim)
        → answer_row r row ≡ a
        → ◌>>=◌ {B = Claim × List KeyRow} a (λ c. done (c, live)) ≡ done (Claim.execute, rows)
        → ⊥
    go (done Claim.execute) e h = answer_row-ne-execute r row e
    go (done (Claim.replay n t)) e h = cc
    go (failed f) e h = cc

module _ {ℓ} {S : Type ℓ} (op : Operation S) (r : Request) (now later : ℕ) where
  run_claimed-fresh :
      (s : S) (live rows : List KeyRow) {status : ℕ} {response : String} {rows' : List KeyRow}
      {s' : S}
      → find (has_key r) live ≡ none
      → rows ≡ live ++ reserved r now ∷ []
      → run_claimed op r later s (Claim.execute, rows)
        ≡ done (Execution.executed status response, rows', s')
      → IsRetained r
          (record { status_code = status; response = response })
          (later + retention_ms)
          rows'
  unfolding run_claimed
  run_claimed-fresh s live rows {status} {response} {rows'} {s'} unknown rows_are h = go (op s) h
    where
      reserved_found : find (has_key r) rows ≡ some (reserved r now)
      reserved_found =
          ap (find (has_key r)) rows_are
          ∙ find-append_none (has_key r) live (reserved r now) unknown (has_key-reserved r now)

      finish :
          (ran : S × Outcome) (a : Answer (List KeyRow))
          → complete_key r ran.1 later rows ≡ a
          → ◌>>=◌ {B = Execution × List KeyRow × S} a (λ kept. done (answered ran kept))
            ≡ done (Execution.executed status response, rows', s')
          → IsRetained r
              (record { status_code = status; response = response })
              (later + retention_ms)
              rows'
      finish (s1, out) (done rows2) e g = (
        completed_row out later (reserved r now),
        ap (find (has_key r)) (ground arith ∙ complete_key-rows r out later rows e)
            ∙ find-map (has_key r) (completing r out later) rows (reserved r now)
                (has_key-completing r r out later) reserved_found
            ∙ ap some (completing-reserved r out now later),
        record {
          digest = refl;
          state = refl;
          status = ground arith;
          response = ground arith;
          until = refl;
        },
      )
      finish ran (failed f) e g = cc

      go :
          (a : Answer (S × Outcome))
          → (a >>= complete_ran r later rows) ≡ done (Execution.executed status response, rows', s')
          → IsRetained r
              (record { status_code = status; response = response })
              (later + retention_ms)
              rows'
      go (done ran) g = finish ran (complete_key r ran.1 later rows) refl g
      go (failed f) g = cc

  execute_key-fresh :
      (s : S) (rows : List KeyRow) {status : ℕ} {response : String} {rows' : List KeyRow} {s' : S}
      → execute_key op r now later rows s ≡ done (Execution.executed status response, rows', s')
      → IsRetained r
          (record { status_code = status; response = response })
          (later + retention_ms)
          rows'
  unfolding execute_key claim_key
  execute_key-fresh s rows {status} {response} {rows'} {s'} h =
      go (claim_found r now live (find (has_key r) live)) refl h
    where
      live : List KeyRow
      live = keep (is_kept now) rows

      go :
          (a : Answer (Claim × List KeyRow))
          → claim_found r now live (find (has_key r) live) ≡ a
          → (a >>= run_claimed op r later s) ≡ done (Execution.executed status response, rows', s')
          → IsRetained r
              (record { status_code = status; response = response })
              (later + retention_ms)
              rows'
      go (done (Claim.execute, rows1)) e g =
          let found = claim_found-execute r now live _ e in
          run_claimed-fresh s live rows1 found.0 found.1 g
      go (done (Claim.replay n t, rows1)) e g = absurd (replays n t rows1 g)
        where
          replays :
              (n : ℕ) (t : String) (rows1 : List KeyRow)
              → run_claimed op r later s (Claim.replay n t, rows1)
                ≢ done (Execution.executed status response, rows', s')
          replays n t rows1 = cc
      go (failed f) e g = cc

answer_row_lem :
    (r : Request) (digest : String) (out : Outcome) (expires : ℕ) (row : KeyRow)
    → Retains r out expires row
    → answer_row (record r { request_digest = digest }) row ≡ (
        if r.request_digest == digest
        then done (Claim.replay out.status_code out.response)
        else failed Fault.request_conflict)
unfolding answer_row answer_completed
answer_row_lem r digest out expires row k =
    rw k.digest (rw k.state (rw k.status (rw k.response (ground arith))))

-- A request that was executed, with the answer that was given, is not executed again within the
-- retention of its outcome, whatever other requests are served meanwhile, whether they succeed or
-- fail: the same key with the same digest gets the same status and response, with a different
-- digest it is refused as a conflict, and in both cases no other table is written.
pub executed_once {ℓ} :
    {S : Type ℓ} (op op' : Operation S) (r : Request) (digest : String) (now later now' later' : ℕ)
    (rows rows1 rows2 : List KeyRow) (s s1 s2 : S) (status : ℕ) (response : String)
    → execute_key op r now later rows s ≡ done (Execution.executed status response, rows1, s1)
    → Served (later + retention_ms) (rows1, s1) (rows2, s2)
    → now' < later + retention_ms
    → execute_key op' (record r { request_digest = digest }) now' later' rows2 s2 ≡ (
        if r.request_digest == digest
        then done (Execution.replayed status response, keep (is_kept now') rows2, s2)
        else failed Fault.request_conflict)
unfolding execute_key claim_key claim_found run_claimed
executed_once op op' r digest now later now' later' rows rows1 rows2 s s1 s2 status response h
      served early =
    let out : Outcome = record { status_code = status; response = response } in
    let (row, found, kept) =
      keep-IsRetained r out (later + retention_ms) now' rows2 early
        (Served-IsRetained r out (execute_key-fresh op r now later s rows h) served) in
    rw found (rw (answer_row_lem r digest out _ row kept) (ground arith))
