-- ===== src/Requests/Settled.antt =====
-- No key stays in progress: `executeHttpIdempotency` claims and completes in one transaction.
use nanasa.Prelude.{
  ℕ, ◌+◌, ◌≤◌, ◌⊎◌, String, eq_refl, true, false, ◌≡◌, refl, ap, Option, none, some, List, [], ◌∷◌,
  ◌++◌, arith, if◌then◌else◌, find, keep, length, map, All, All-keep, if_ind, Bool-cases, inl, inr,
}
use nanasa.Requests.Keys.{
  KeyState, KeyRow, Request, Fault, Answer, done, failed, Claim, Execution, Outcome, Operation,
  has_key, is_kept, is_reserved, is_retained, reserved, completing, claim_found, answer_row,
  claim_key, complete_key, run_claimed, execute_key, committed, answered, complete_ran, ◌>>=◌,
}
use nanasa.Requests.Once.{
  Served, here, next, claim_found-execute, completing-reserved, has_key-reserved,
}

abbrev pub IsSettled : List KeyRow → Type 0
IsSettled = All (λ row. row.state ≡ KeyState.completed)

map-IsSettled :
    (r : Request) (out : Outcome) (now : ℕ) (rows : List KeyRow)
    → IsSettled rows
    → IsSettled (map (completing r out now) rows)
unfolding completing
map-IsSettled r out now [] h = tt
map-IsSettled r out now (row ∷ rows) h = (
  if_ind (λ (x : KeyRow). x.state ≡ KeyState.completed) (is_reserved r row) _ _ refl h.0,
  map-IsSettled r out now rows h.1,
)

claimed-IsSettled :
    (r : Request) (out : Outcome) (now later : ℕ) (rows : List KeyRow)
    → IsSettled rows
    → IsSettled (map (completing r out later) (rows ++ reserved r now ∷ []))
claimed-IsSettled r out now later [] h =
    (ap (λ row. row.state) (completing-reserved r out now later), tt)
claimed-IsSettled r out now later (row ∷ rows) h =
    ((map-IsSettled r out later (row ∷ []) (h.0, tt)).0, claimed-IsSettled r out now later rows h.1)

keep_reserved : (r : Request) (rows : List KeyRow) → IsSettled rows → keep (is_reserved r) rows ≡ []
keep_reserved r [] h = refl
keep_reserved r (row ∷ rows) h = ground (arith, keep_reserved r rows h.1)

is_reserved-reserved : (r : Request) (now : ℕ) → is_reserved r (reserved r now) ≡ true
is_reserved-reserved r now = rw (has_key-reserved r now) (rw (eq_refl r.request_digest) refl)

-- The reservation that a claim makes is the one row that its completion finds.
one_reserved :
    (r : Request) (now : ℕ) (rows : List KeyRow)
    → IsSettled rows
    → length (keep (is_reserved r) (rows ++ reserved r now ∷ [])) ≡ 1
one_reserved r now [] h = rw (is_reserved-reserved r now) refl
one_reserved r now (row ∷ rows) h = ground (arith, one_reserved r now rows h.1)

complete_key_lem :
    (r : Request) (out : Outcome) (now later : ℕ) (rows : List KeyRow)
    → IsSettled rows
    → complete_key r out later (rows ++ reserved r now ∷ []) ≡ (
        if is_retained out.status_code
        then done (map (completing r out later) (rows ++ reserved r now ∷ []))
        else failed Fault.not_retained)
unfolding complete_key
complete_key_lem r out now later rows h = ground (arith, one_reserved r now rows h)

claim_found-replay :
    (r : Request) (now : ℕ) (live : List KeyRow) (o : Option KeyRow) (n : ℕ) (t : String)
    {rows : List KeyRow}
    → claim_found r now live o ≡ done (Claim.replay n t, rows)
    → rows ≡ live
unfolding claim_found
claim_found-replay r now live none n t h = absurd (cc)
claim_found-replay r now live (some row) n t {rows} h = go (answer_row r row) h
  where
    go :
        (a : Answer Claim)
        → ◌>>=◌ {B = Claim × List KeyRow} a (λ c. done (c, live)) ≡ done (Claim.replay n t, rows)
        → rows ≡ live
    go (done c) h = ground arith
    go (failed f) h = cc

-- What completing the key of an operation that ran comes to.
module _ {ℓ} {S : Type ℓ} (r : Request) (now later : ℕ) where
  abbrev pub settle : List KeyRow → S × Outcome → Answer (Execution × List KeyRow × S)
  settle rows ran =
      if is_retained ran.1.status_code
      then done (answered ran (map (completing r ran.1 later) (rows ++ reserved r now ∷ [])))
      else failed Fault.not_retained

  complete_ran_lem :
      (rows : List KeyRow) (ran : S × Outcome)
      → IsSettled rows
      → complete_ran r later (rows ++ reserved r now ∷ []) ran ≡ settle rows ran
  complete_ran_lem rows ran h =
      rw (complete_key_lem r ran.1 now later rows h)
        (elim (Bool-cases (is_retained ran.1.status_code)) [
          | inl e ↦ rw e refl
          | inr e ↦ rw e refl
        ])

module _ {ℓ} {S : Type ℓ} (op : Operation S) (r : Request) (now later : ℕ) where
  committed-IsSettled :
      (rows : List KeyRow) (s : S)
      → IsSettled rows
      → IsSettled (committed (execute_key op r now later rows s) rows s).0
  unfolding execute_key claim_key run_claimed
  committed-IsSettled rows s h = go (claim_found r now live (find (has_key r) live)) refl
    where
      live : List KeyRow
      live = keep (is_kept now) rows

      live-IsSettled : IsSettled live
      live-IsSettled = All-keep _ (is_kept now) rows h

      settled : (ran : S × Outcome) → IsSettled (committed (settle r now later live ran) rows s).0
      settled ran =
          if_ind (λ a. IsSettled (committed a rows s).0) (is_retained ran.1.status_code) _ _
            (claimed-IsSettled r ran.1 now later live live-IsSettled) h

      ran :
          (a : Answer (S × Outcome))
          → IsSettled
              (committed (a >>= complete_ran r later (live ++ reserved r now ∷ [])) rows s).0
      ran (failed f) = h
      ran (done x) = rw (complete_ran_lem r now later live x live-IsSettled) (settled x)

      go :
          (a : Answer (Claim × List KeyRow))
          → claim_found r now live (find (has_key r) live) ≡ a
          → IsSettled (committed (a >>= run_claimed op r later s) rows s).0
      go (failed f) e = h
      go (done (Claim.execute, rows1)) e = rw (claim_found-execute r now live _ e).1 (ran (op s))
      go (done (Claim.replay n t, rows1)) e =
          rw (claim_found-replay r now live _ n t e) live-IsSettled

Served-IsSettled {ℓ} :
    {S : Type ℓ} {until : ℕ} {w w' : List KeyRow × S}
    → IsSettled w.0
    → Served until w w'
    → IsSettled w'.0
Served-IsSettled h here = h
Served-IsSettled h (next {rows} {s} before op r now later early) =
    committed-IsSettled op r now later rows s (Served-IsSettled h before)

settles {ℓ} :
    {S : Type ℓ} (op : Operation S) (r : Request) (now later until : ℕ) (s0 s : S)
    (rows : List KeyRow)
    → Served until ([], s0) (rows, s)
    → find (has_key r) (keep (is_kept now) rows) ≡ none
    → execute_key op r now later rows s ≡ (op s >>= settle r now later (keep (is_kept now) rows))
unfolding execute_key claim_key claim_found run_claimed
settles {S} op r now later until s0 s rows served unknown = rw unknown (go (op s))
  where
    live : List KeyRow
    live = keep (is_kept now) rows

    go :
        (a : Answer (S × Outcome))
        → (a >>= complete_ran r later (live ++ reserved r now ∷ []))
          ≡ (a >>= settle r now later live)
    go (failed f) = refl
    go (done x) =
        complete_ran_lem r now later live x
          (All-keep _ (is_kept now) rows (Served-IsSettled tt served))

-- The row that a retained outcome leaves, a day long.
abbrev pub retained_row : Request → Outcome → ℕ → KeyRow
retained_row r out later = record {
  principal_id = r.principal_id;
  route_id = r.route_id;
  key = r.key;
  request_digest = r.request_digest;
  state = KeyState.completed;
  status_code = some out.status_code;
  response = out.response;
  expires_at = later + 86400000;
}

completing-other :
    (r : Request) (out : Outcome) (now : ℕ) (row : KeyRow)
    → has_key r row ≡ false
    → completing r out now row ≡ row
unfolding completing
completing-other r out now row h = rw h refl

completing-retained_row :
    (r : Request) (out : Outcome) (now later : ℕ) (rows : List KeyRow)
    → find (has_key r) rows ≡ none
    → map (completing r out later) (rows ++ reserved r now ∷ [])
      ≡ rows ++ retained_row r out later ∷ []
completing-retained_row r out now later [] h =
    ap (λ row. row ∷ []) (completing-reserved r out now later)
completing-retained_row r out now later (row ∷ rows) h = elim (Bool-cases (has_key r row)) [
  | inl e ↦ absurd (let no : some row ≡ none = rw e at h in cc)
  | inr e ↦
      rw (completing-other r out later row e)
        (ap (λ xs. row ∷ xs) (completing-retained_row r out now later rows (rw e at h)))
]

-- After any requests since the table was empty, a request whose key is not retained (or whose
-- retention is over) is answered by its operation, which runs once. What it throws is thrown; an
-- outcome with a status from 200 to 499 is answered, and its status and response are retained under
-- the key for a day; and any other status is refused. No outcome is left uncertain by an earlier
-- request.
pub unknown_runs {ℓ} :
    {S : Type ℓ} (op : Operation S) (r : Request) (now later until : ℕ) (s0 s : S)
    (rows : List KeyRow)
    → Served until ([], s0) (rows, s)
    → find (has_key r) (keep (is_kept now) rows) ≡ none
    → ((f : Fault) → op s ≡ failed f → execute_key op r now later rows s ≡ failed f)
      × ((s' : S) (out : Outcome)
          → op s ≡ done (s', out)
          → 200 ≤ out.status_code
          → out.status_code ≤ 499
          → execute_key op r now later rows s
            ≡ done (
              Execution.executed out.status_code out.response,
              keep (is_kept now) rows ++ retained_row r out later ∷ [],
              s',
            ))
      × ((s' : S) (out : Outcome)
          → op s ≡ done (s', out)
          → (out.status_code ≤ 199) ⊎ (500 ≤ out.status_code)
          → execute_key op r now later rows s ≡ failed Fault.not_retained)
unknown_runs op r now later until s0 s rows served unknown =
    let runs = settles op r now later until s0 s rows served unknown in
    (
      λ f h. rw (runs, h) refl,
      λ s' out h low high.
          let kept : is_retained out.status_code ≡ true = ground arith in
          rw
            (
              runs,
              h,
              kept,
              completing-retained_row r out now later (keep (is_kept now) rows) unknown,
            )
            refl,
      λ s' out h away.
          let dropped : is_retained out.status_code ≡ false = ground arith in
          rw (runs, h, dropped) refl,
    )
