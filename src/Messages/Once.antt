-- ===== src/Messages/Once.antt =====
-- A message is submitted once at most under one key (`submitMessage` of apps/daemon/src/store.ts).
use nanasa.Prelude.{
  ℕ, String, eq_refl, Bool, true, false, ◌≡◌, refl, ap, ◌∙◌, subst, ◌⊎◌, inl, inr, Option, none,
  some, List, arith, find, is_none, Bool-cases,
}
use nanasa.Messages.Types.{
  Command, Submission, Response, KeyRow, Tables, Fault, Answer, done, failed, require, ◌>>=◌, ◌>>◌,
  require_done, find_group, is_command,
}
use nanasa.Messages.Store.{Call, submit_scope, submit_to}
use nanasa.Messages.Operations.{
  execute_idempotent, run_keyed, run_known, has_key, read_submission, same_digest, unchanged,
  submit_message,
}
use nanasa.Messages.Keyed.{execute_idempotent_fresh}
use nanasa.Messages.Submits.{submit_to-Sent}
use nanasa.Messages.Sequences.{Operated}
use nanasa.Messages.Held.{
  IsHeld, Pruned, find-invalidated_none, find-append_none, Sent-Pruned, Operated-IsHeld,
}

unknown-Pruned :
    (scope key : String) (s : Submission) (group_id : String) (now : ℕ) (keys after : List KeyRow)
    → Pruned group_id now keys after
    → find (has_key scope key) keys ≡ none
    → find (has_key scope key) after ≡ none
unknown-Pruned scope key s group_id now keys after (inl e) h =
    subst (λ ks. find (has_key scope key) ks ≡ none) e h
unknown-Pruned scope key s group_id now keys after (inr (ids, e)) h =
    subst (λ ks. find (has_key scope key) ks ≡ none) e
      (find-invalidated_none scope key s (submit_scope group_id) ids now keys h)

submit_message_holds :
    (group_id : String) (c : Command) (key : String) (call : Call) (t : Tables) {s : Submission}
    {after : Tables}
    → find (has_key (submit_scope group_id) key) t.keys ≡ none
    → submit_message group_id c (some key) call t ≡ done (s, after)
    → IsHeld (submit_scope group_id) key s after.keys
unfolding submit_message
submit_message_holds group_id c key call t {s} {after} fresh h =
    let scope = submit_scope group_id in
    let (_, keyed) = require_done (is_command c) Fault.invalid _ h in
    let (stored, ran, keys) =
      execute_idempotent_fresh Response.submitted read_submission
        (λ t. submit_to group_id c call t (find_group group_id t.groups)) scope (some call.digest) t
        key fresh keyed in
    let still_new =
      unknown-Pruned scope key s group_id call.now t.keys stored.keys
        (Sent-Pruned group_id c call t s stored
          (submit_to-Sent group_id c call t (find_group group_id t.groups) refl ran))
        fresh in
    (
      _,
      ap (find (has_key scope key)) keys
          ∙ find-append_none scope key s stored.keys _ still_new
              (ground (arith, eq_refl scope, eq_refl key)),
      inl (refl, refl),
    )

-- Either the submission again with the tables unchanged, or a refusal.
abbrev pub NotAgain : Submission → Tables → Answer (Submission × Tables) → Type 0
NotAgain s t answer = (answer ≡ done (s, t)) ⊎ ((f : Fault) × (answer ≡ failed f))

replayed_NotAgain :
    (s : Submission) (t : Tables) (invalidated_at : Option ℕ) (d : Bool) (response : Response)
    → ((invalidated_at ≡ none) × (response ≡ Response.submitted s))
      ⊎ ((n : ℕ) × (invalidated_at ≡ some n))
    → NotAgain s t (
        require (is_none invalidated_at) Fault.idempotency_result_expired
        >> require d Fault.idempotency_request_conflict
        >> read_submission response
        >>= unchanged t)
replayed_NotAgain s t invalidated_at true response (inl (e, f)) = rw (e, f) (inl refl)
replayed_NotAgain s t invalidated_at false response (inl (e, f)) =
    rw e (inr (Fault.idempotency_request_conflict, refl))
replayed_NotAgain s t invalidated_at d response (inr (n, e)) =
    rw e (inr (Fault.idempotency_result_expired, refl))

-- Once a message was submitted under a new key, no call for the same group with that key submits
-- another one or writes anything, after whatever was submitted, cleared and pruned since: it gives
-- the submission that was answered at first, or fails.
pub submitted_once :
    (group_id : String) (c c' : Command) (key : String) (call call' : Call) (t after later : Tables)
    (s : Submission)
    → find (has_key (submit_scope group_id) key) t.keys ≡ none
    → submit_message group_id c (some key) call t ≡ done (s, after)
    → Operated after later
    → NotAgain s later (submit_message group_id c' (some key) call' later)
unfolding submit_message execute_idempotent run_keyed run_known
submitted_once group_id c c' key call call' t after later s fresh h operated =
    let (row, found, holds) =
      Operated-IsHeld (submit_scope group_id) key s
        (submit_message_holds group_id c key call t fresh h) operated in
    elim (Bool-cases (is_command c')) [
      | inr e ↦ rw e (inr (Fault.invalid, refl))
      | inl e ↦ rw e (
          rw found (
            replayed_NotAgain s later row.invalidated_at
              (same_digest (some call'.digest) row.request_digest) row.response holds))
    ]
