-- ===== src/Messages/Operations.antt =====
-- `#executeIdempotent`, `submitMessage` and `clearMessageHistory` (apps/daemon/src/store.ts): a key
-- that was used gives the stored result again.
use nanasa.Prelude.{
  String, ◌==◌, Bool, true, false, ◌&&◌, Option, none, some, [], ◌∷◌, ◌++◌, find, is_none,
}
use nanasa.Messages.Types.{
  Command, Submission, Cleared, Response, KeyRow, Tables, Fault, Answer, done, failed, require,
  ◌>>=◌, ◌>>◌, find_group, is_command,
}
use nanasa.Messages.Store.{Call, submit_scope, clear_scope, submit_to, clear_group}

abbrev pub has_key : String → String → KeyRow → Bool
has_key scope key row = row.scope == scope && row.key == key

abbrev pub same_digest : Option String → Option String → Bool
same_digest none kept = true
same_digest (some digest) none = false
same_digest (some digest) (some kept) = kept == digest

abbrev pub unchanged {ℓ} : {A : Type ℓ} → Tables → A → Answer (A × Tables)
unchanged t a = done (a, t)

-- The row of `idempotency_keys` for a result.
abbrev pub store_result {ℓ} :
    {A : Type ℓ} → (A → Response) → String → String → Option String → A × Tables → A × Tables
store_result wrap scope key digest (a, t) = (
  a,
  record t {
    keys =
        t.keys
        ++ record {
          scope = scope;
          key = key;
          request_digest = digest;
          response = wrap a;
          invalidated_at = none;
        }
          ∷ [];
  },
)

-- The end of `#executeIdempotent`, for an operation whose result `wrap` stores and `read` reads.
module _ {ℓ} {A : Type ℓ} (wrap : A → Response) (read : Response → Answer A)
    (operation : Tables → Answer (A × Tables)) where
  unfoldable pub run_known : Option String → Tables → KeyRow → Answer (A × Tables)
  run_known digest t row =
      require (is_none row.invalidated_at) Fault.idempotency_result_expired
      >> require (same_digest digest row.request_digest) Fault.idempotency_request_conflict
      >> read row.response
      >>= unchanged t

  unfoldable pub run_keyed :
      String → String → Option String → Tables → Option KeyRow → Answer (A × Tables)
  unfolding run_known
  run_keyed scope key digest t (some row) = run_known digest t row
  run_keyed scope key digest t none =
      operation t >>= λ result. done (store_result wrap scope key digest result)

  -- `#executeIdempotent`
  unfoldable pub execute_idempotent :
      String → Option String → Option String → Tables → Answer (A × Tables)
  unfolding run_keyed
  execute_idempotent scope none digest t = operation t
  execute_idempotent scope (some key) digest t =
      run_keyed scope key digest t (find (has_key scope key) t.keys)

abbrev pub read_submission : Response → Answer Submission
read_submission (Response.submitted s) = done s
read_submission _ = failed Fault.invalid

abbrev pub read_cleared : Response → Answer Cleared
read_cleared (Response.cleared c) = done c
read_cleared _ = failed Fault.invalid

-- `submitMessage`
unfoldable pub submit_message :
    String → Command → Option String → Call → Tables → Answer (Submission × Tables)
unfolding submit_to execute_idempotent
submit_message group_id c key call t =
    require (is_command c) Fault.invalid
    >> execute_idempotent Response.submitted read_submission
        (λ t. submit_to group_id c call t (find_group group_id t.groups)) (submit_scope group_id)
        key (some call.digest) t

-- `clearMessageHistory`
unfoldable pub clear_messages : String → Option String → Call → Tables → Answer (Cleared × Tables)
unfolding clear_group execute_idempotent
clear_messages group_id key call t =
    execute_idempotent Response.cleared read_cleared
      (λ t. clear_group group_id call.now t (find_group group_id t.groups)) (clear_scope group_id)
      key none t
