-- ===== src/Messages/Keyed.antt =====
-- What `#executeIdempotent` comes to (apps/daemon/src/store.ts): the operation, or nothing.
use nanasa.Prelude.{
  String, Bool, true, false, ◌≡◌, refl, sym, ap, ◌∙◌, List, [], ◌∷◌, ◌++◌, ◌⊎◌, inl, inr, Option,
  none, some, arith, find, is_none,
}
use mathlib.Core.List.{append-nil}
use nanasa.Messages.Types.{
  Response, KeyRow, Tables, Fault, Answer, done, failed, require, ◌>>=◌, ◌>>◌, >>=_done,
}
use nanasa.Messages.Operations.{
  execute_idempotent, run_keyed, run_known, store_result, unchanged, has_key, same_digest,
}

-- The tables, and the keys with more behind them.
abbrev pub SameRows : Tables → Tables → Type 0
SameRows t u =
    (u.messages ≡ t.messages)
    × (u.groups ≡ t.groups)
    × (u.deliveries ≡ t.deliveries)
    × ((more : List KeyRow) × (u.keys ≡ t.keys ++ more))

-- The operation gave the result, and its tables with the key are the tables after.
abbrev pub Ran {ℓ} : {A : Type ℓ} → Answer (A × Tables) → A → Tables → Type ℓ
Ran answer a after = (stored : Tables) × (answer ≡ done (a, stored)) × SameRows stored after

module _ {ℓ} {A : Type ℓ} (wrap : A → Response) (read : Response → Answer A)
    (operation : Tables → Answer (A × Tables)) (scope : String) (digest : Option String)
    (t : Tables) {a : A} {after : Tables} where
  stored_keys :
      (key : String) (b : A) (stored : Tables)
      → done (store_result wrap scope key digest (b, stored)) ≡ done (a, after)
      → after.keys
        ≡ stored.keys
          ++ record {
            scope = scope;
            key = key;
            request_digest = digest;
            response = wrap b;
            invalidated_at = none;
          }
            ∷ []
  stored_keys key b stored e = ground arith

  Ran-stored :
      (key : String) (b : A) (stored : Tables)
      → operation t ≡ done (b, stored)
      → done (store_result wrap scope key digest (b, stored)) ≡ done (a, after)
      → Ran (operation t) a after
  Ran-stored key b stored ran e =
      let same : b ≡ a = ground arith in
      (
        stored,
        ran ∙ ap (λ (x : A). done (x, stored)) same,
        (ground arith, ground arith, ground arith, (_, stored_keys key b stored e)),
      )

  known_unchanged :
      (b d : Bool) (r : Answer A)
      → (require b Fault.idempotency_result_expired
          >> require d Fault.idempotency_request_conflict
          >> r
          >>= unchanged t)
        ≡ done (a, after)
      → t ≡ after
  known_unchanged true true (done x) h = ground arith
  known_unchanged true true (failed e) h = absurd (cc)
  known_unchanged true false r h = absurd (cc)
  known_unchanged false d r h = absurd (cc)

  pub execute_idempotent_cases :
      (key : Option String)
      → execute_idempotent wrap read operation scope key digest t ≡ done (a, after)
      → (t ≡ after) ⊎ Ran (operation t) a after
  unfolding execute_idempotent run_keyed run_known
  execute_idempotent_cases none h =
      inr (after, h, (refl, refl, refl, ([], sym (append-nil after.keys))))
  execute_idempotent_cases (some key) h = go (find (has_key scope key) t.keys) h
    where
      go :
          (o : Option KeyRow)
          → run_keyed wrap read operation scope key digest t o ≡ done (a, after)
          → (t ≡ after) ⊎ Ran (operation t) a after
      go (some row) h = inl (
          known_unchanged (is_none row.invalidated_at) (same_digest digest row.request_digest)
            (read row.response) h)
      go none h =
          let ((b, stored), ran, e) =
            >>=_done (operation t) (λ result. done (store_result wrap scope key digest result)) h in
          inr (Ran-stored key b stored ran e)

  -- Under a new key the operation runs, and its result is stored.
  pub execute_idempotent_fresh :
      (key : String)
      → find (has_key scope key) t.keys ≡ none
      → execute_idempotent wrap read operation scope (some key) digest t ≡ done (a, after)
      → (stored : Tables) × (operation t ≡ done (a, stored))
        × (after.keys
            ≡ stored.keys
              ++ record {
                scope = scope;
                key = key;
                request_digest = digest;
                response = wrap a;
                invalidated_at = none;
              }
                ∷ [])
  unfolding execute_idempotent run_keyed
  execute_idempotent_fresh key fresh h =
      let ((b, stored), ran, e) =
        >>=_done (operation t) (λ result. done (store_result wrap scope key digest result))
          (rw fresh at h) in
      let same : b ≡ a = ground arith in
      (
        stored,
        ran ∙ ap (λ (x : A). done (x, stored)) same,
        stored_keys key b stored e
            ∙ ap
                (λ (x : A).
                  stored.keys
                  ++ record {
                    scope = scope;
                    key = key;
                    request_digest = digest;
                    response = wrap x;
                    invalidated_at = none;
                  }
                    ∷ [])
                same,
      )
