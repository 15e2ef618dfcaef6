-- ===== src/Requests/Keeps.antt =====
-- What `executeHttpIdempotency` leaves of the retained outcome of an earlier request.
use nanasa.Prelude.{
  ℕ, ◌<◌, Bool, true, ◌≡◌, refl, subst, sym, Option, none, some, List, [], ◌∷◌, ◌++◌, arith, find,
  keep, inl, inr, map, if_ind, ap, ◌⊎◌, ◌∙◌,
}
use nanasa.Requests.Keys.{
  KeyState, KeyRow, Request, Answer, done, failed, Claim, Execution, Outcome, Operation, has_key,
  is_kept, is_reserved, reserved, answer_row, claim_found, claim_key, completing, complete_key,
  run_claimed, execute_key, committed, answered, complete_ran, ◌>>=◌,
}

module _ {ℓ} {A : Type ℓ} (p : A → Bool) where
  find-keep :
      (q : A → Bool) (xs : List A) (x : A)
      → find p xs ≡ some x
      → q x ≡ true
      → find p (keep q xs) ≡ some x
  find-keep q [] x h k = h
  find-keep q (y ∷ ys) x h k = ground (arith, find-keep q ys x)

  pub find-map :
      (f : A → A) (xs : List A) (x : A)
      → ((y : A) → p (f y) ≡ p y)
      → find p xs ≡ some x
      → find p (map f xs) ≡ some (f x)
  find-map f [] x k h = cc
  find-map f (y ∷ xs) x k h = ground (arith, k y, find-map f xs x k)

  find-append : (xs ys : List A) (x : A) → find p xs ≡ some x → find p (xs ++ ys) ≡ some x
  find-append [] ys x h = cc
  find-append (y ∷ xs) ys x h = ground (arith, find-append xs ys x)

pub has_key-completing :
    (r r' : Request) (out : Outcome) (now : ℕ) (row : KeyRow)
    → has_key r (completing r' out now row) ≡ has_key r row
unfolding completing
has_key-completing r r' out now row =
    if_ind (λ x. has_key r x ≡ has_key r row) (is_reserved r' row) _ _ refl refl

-- The row of a request's key holds its outcome, until a time.
pub record Retains (r : Request) (out : Outcome) (expires : ℕ) (row : KeyRow) : Type 0 where
  pub digest : row.request_digest ≡ r.request_digest
  pub state : row.state ≡ KeyState.completed
  pub status : row.status_code ≡ some out.status_code
  pub response : row.response ≡ out.response
  pub until : row.expires_at ≡ expires

abbrev pub IsRetained : Request → Outcome → ℕ → List KeyRow → Type 0
IsRetained r out expires rows =
    (row : KeyRow) × (find (has_key r) rows ≡ some row) × Retains r out expires row

pub completing_self :
    (r : Request) (out : Outcome) (now : ℕ) (row : KeyRow)
    → row.state ≡ KeyState.completed
    → completing r out now row ≡ row
unfolding completing
completing_self r out now row h = ground arith

claim_found-rows :
    (r : Request) (now : ℕ) (live : List KeyRow) (o : Option KeyRow) {c : Claim}
    {rows : List KeyRow}
    → claim_found r now live o ≡ done (c, rows)
    → (rows ≡ live) ⊎ (rows ≡ live ++ reserved r now ∷ [])
unfolding claim_found
claim_found-rows r now live none h = inr (ground arith)
claim_found-rows r now live (some row) {c} {rows} h = inl (go (answer_row r row) h)
  where
    go :
        (a : Answer Claim)
        → ◌>>=◌ {B = Claim × List KeyRow} a (λ c'. done (c', live)) ≡ done (c, rows)
        → rows ≡ live
    go (done c') h = ground arith
    go (failed e) h = cc

pub complete_key-rows :
    (r : Request) (out : Outcome) (now : ℕ) (rows : List KeyRow) {rows' : List KeyRow}
    → complete_key r out now rows ≡ done rows'
    → rows' ≡ map (completing r out now) rows
unfolding complete_key
complete_key-rows r out now rows h = ground arith

module _ (r : Request) (out : Outcome) (expires : ℕ) where
  pub keep-IsRetained :
      (now : ℕ) (rows : List KeyRow)
      → now < expires
      → IsRetained r out expires rows
      → IsRetained r out expires (keep (is_kept now) rows)
  keep-IsRetained now rows h (row, found, kept) =
      (row, find-keep (has_key r) (is_kept now) rows row found (ground arith), kept)

  append-IsRetained :
      (rows more : List KeyRow)
      → IsRetained r out expires rows
      → IsRetained r out expires (rows ++ more)
  append-IsRetained rows more (row, found, kept) =
      (row, find-append (has_key r) rows more row found, kept)

  map-IsRetained :
      (r' : Request) (out' : Outcome) (now : ℕ) (rows : List KeyRow)
      → IsRetained r out expires rows
      → IsRetained r out expires (map (completing r' out' now) rows)
  map-IsRetained r' out' now rows (row, found, kept) = (
    row,
    find-map (has_key r) (completing r' out' now) rows row (has_key-completing r r' out' now) found
        ∙ ap some (completing_self r' out' now row kept.state),
    kept,
  )

  claim_key-IsRetained :
      (r' : Request) (now : ℕ) (rows : List KeyRow) {c : Claim} {rows' : List KeyRow}
      → now < expires
      → IsRetained r out expires rows
      → claim_key r' now rows ≡ done (c, rows')
      → IsRetained r out expires rows'
  unfolding claim_key
  claim_key-IsRetained r' now rows h k e = elim (claim_found-rows r' now _ _ e) [
    | inl same ↦ subst (IsRetained r out expires) (sym same) (keep-IsRetained now rows h k)
    | inr more ↦
        subst (IsRetained r out expires) (sym more)
          (append-IsRetained _ _ (keep-IsRetained now rows h k))
  ]

  module _ {ℓ} {S : Type ℓ} where
    run_claimed-IsRetained :
        (op : Operation S) (r' : Request) (later : ℕ) (s : S) (c : Claim) (rows : List KeyRow)
        {e : Execution} {rows' : List KeyRow} {s' : S}
        → IsRetained r out expires rows
        → run_claimed op r' later s (c, rows) ≡ done (e, rows', s')
        → IsRetained r out expires rows'
    unfolding run_claimed
    run_claimed-IsRetained op r' later s (Claim.replay status response) rows k h =
        subst (IsRetained r out expires) (ground arith) k
    run_claimed-IsRetained op r' later s Claim.execute rows {e} {rows'} {s'} k h = go (op s) h
      where
        finish :
            (ran : S × Outcome) (a : Answer (List KeyRow))
            → complete_key r' ran.1 later rows ≡ a
            → ◌>>=◌ {B = Execution × List KeyRow × S} a (λ kept. done (answered ran kept))
              ≡ done (e, rows', s')
            → IsRetained r out expires rows'
        finish ran (done rows2) h g =
            subst (IsRetained r out expires)
              (sym (complete_key-rows r' ran.1 later rows h) ∙ ground arith)
              (map-IsRetained r' ran.1 later rows k)
        finish ran (failed f) h g = cc

        go :
            (a : Answer (S × Outcome))
            → (a >>= complete_ran r' later rows) ≡ done (e, rows', s')
            → IsRetained r out expires rows'
        go (done ran) h = finish ran (complete_key r' ran.1 later rows) refl h
        go (failed f) h = cc

    pub committed-IsRetained :
        (op : Operation S) (r' : Request) (now later : ℕ) (rows : List KeyRow) (s : S)
        → now < expires
        → IsRetained r out expires rows
        → IsRetained r out expires (committed (execute_key op r' now later rows s) rows s).0
    unfolding execute_key
    committed-IsRetained op r' now later rows s h k = go (claim_key r' now rows) refl
      where
        end :
            (c : Claim) (rows1 : List KeyRow) (a : Answer (Execution × List KeyRow × S))
            → claim_key r' now rows ≡ done (c, rows1)
            → run_claimed op r' later s (c, rows1) ≡ a
            → IsRetained r out expires (committed a rows s).0
        end c rows1 (done (_, rows2, s2)) h1 h2 =
            run_claimed-IsRetained op r' later s c rows1 (claim_key-IsRetained r' now rows h k h1)
              h2
        end c rows1 (failed e) h1 h2 = k

        go :
            (a : Answer (Claim × List KeyRow))
            → claim_key r' now rows ≡ a
            → IsRetained r out expires (committed (a >>= run_claimed op r' later s) rows s).0
        go (failed e) h1 = k
        go (done (c, rows1)) h1 = end c rows1 (run_claimed op r' later s (c, rows1)) h1 refl
