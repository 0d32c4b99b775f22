-- ===== src/Retry/Scheduler/Histories.antt =====
-- The error histories that the scheduler builds, and what escalation can see of them.
use mathlib.Core.List.{reverse, reverse-append, reverse-reverse}
use lan_file_share.Common.{
  ℕ, suc, zero, not, ◌≡◌, ◌≢◌, refl, sym, arith, subst, false, String, Option, none, some, List, [],
  ◌∷◌, ◌++◌, length, drop, string_eq, ltb, Bool-cases, inl, inr,
}
use lan_file_share.Common.Int.{ℤ}
use lan_file_share.Common.Maps.{lookup, insert, delete, lookup-insert, lookup-delete}
use lan_file_share.Common.Text.{text_eq, text_beq_iff}
use lan_file_share.Errors.{Error, error_text}
use lan_file_share.Retry.Policy.{RetryPolicy}
use lan_file_share.Retry.History.{
  ErrorContext, add_error, keep_last_ten, repeated_error, get_error_pattern, pattern_of,
}
use lan_file_share.Retry.Handler.{handle_error}
use lan_file_share.Retry.Scheduler.{
  RetryTask, RetryQueue, is_retry, cancel_retry, newest, is_repeat, note_error, schedule_retry,
  context_of,
}

-- No two errors in a row have the same text.
abbrev pub Alternates : List Error → Type 0
Alternates [] = Unit {0}
Alternates (e ∷ []) = Unit {0}
Alternates (e ∷ f ∷ es) = (error_text e ≢ error_text f) × Alternates (f ∷ es)

Alternates-tail : (e : Error) (es : List Error) → Alternates (e ∷ es) → Alternates es
Alternates-tail e [] a = tt
Alternates-tail e (f ∷ es) a = a.1

Alternates-drop : (n : ℕ) (es : List Error) → Alternates es → Alternates (drop n es)
Alternates-drop zero es a = a
Alternates-drop (suc n) [] a = a
Alternates-drop (suc n) (e ∷ es) a = Alternates-drop n es (Alternates-tail e es a)

Alternates-add :
    (es : List Error) (err : Error)
    → Alternates es
    → is_repeat (newest es) err ≡ false
    → Alternates (es ++ err ∷ [])
Alternates-add [] err a h = tt
Alternates-add (e ∷ []) err a h =
    (λ same. ground (arith, text_beq_iff (error_text e) (error_text err)), tt)
Alternates-add (e ∷ f ∷ es) err a h = (a.0, Alternates-add (f ∷ es) err a.1 h)

note_error-Alternates :
    (ec : ErrorContext) (err : Error) (now : ℤ)
    → Alternates ec.error_history
    → Alternates (note_error ec err now).error_history
unfolding note_error add_error keep_last_ten
note_error-Alternates ec err now a = elim (Bool-cases (is_repeat (newest ec.error_history) err)) [
  | inl repeat ↦ rw repeat a
  | inr fresh ↦ rw fresh (
      let longer = Alternates-add ec.error_history err a fresh in
      elim (Bool-cases (ltb 10 (length (ec.error_history ++ err ∷ [])))) [
        | inl more ↦ rw more (Alternates-drop _ _ longer)
        | inr few ↦ rw few longer
      ])
]

Alternates-newest :
    (es : List Error) (x y : Error) → Alternates (es ++ (x ∷ y ∷ [])) → error_text x ≢ error_text y
Alternates-newest [] x y a = a.0
Alternates-newest (e ∷ []) x y a = a.1.0
Alternates-newest (e ∷ f ∷ es) x y a = Alternates-newest (f ∷ es) x y a.1

pattern_of-Alternates :
    (newest_first : List Error)
    → Alternates (reverse newest_first)
    → pattern_of newest_first ≢ repeated_error
unfolding pattern_of
pattern_of-Alternates [] a = cc
pattern_of-Alternates (e ∷ []) a = cc
pattern_of-Alternates (e ∷ f ∷ es) a =
    let shape : reverse (e ∷ f ∷ es) ≡ reverse es ++ (f ∷ e ∷ []) =
      reverse-append (e ∷ f ∷ []) es in
    let differ = Alternates-newest (reverse es) f e (subst Alternates shape a) in
    ground (arith, differ, text_beq_iff (error_text f) (error_text e))

-- In every task of the queue no two errors in a row have the same text.
abbrev pub AllAlternate : RetryQueue → Type 0
AllAlternate queue =
    (path : String) (task : RetryTask)
    → lookup path queue ≡ some task
    → Alternates task.error_context.error_history

context_of-Alternates :
    (p : RetryPolicy) (session path : String) (queue : RetryQueue) (found : Option RetryTask)
    → AllAlternate queue
    → lookup path queue ≡ found
    → Alternates (context_of p session path found).error_history
context_of-Alternates p session path queue none all h = tt
context_of-Alternates p session path queue (some task) all h = all path task h

insert-AllAlternate :
    (queue : RetryQueue) (path : String) (task : RetryTask)
    → AllAlternate queue
    → Alternates task.error_context.error_history
    → AllAlternate (insert path task queue)
insert-AllAlternate queue path task all a other found h =
    ground (arith, all other found, lookup-insert path other task queue)

delete-AllAlternate :
    (queue : RetryQueue) (path : String) → AllAlternate queue → AllAlternate (delete path queue)
delete-AllAlternate queue path all other found h =
    ground (arith, all other found, lookup-delete path other queue)

schedule_retry-AllAlternate :
    (p : RetryPolicy) (session path : String) (queue : RetryQueue) (err : Error) (count now : ℤ)
    → AllAlternate queue
    → AllAlternate (schedule_retry p session queue path err count now).0
unfolding schedule_retry
schedule_retry-AllAlternate p session path queue err count now all =
    elim (Bool-cases (not (is_retry (handle_error p (some err) count)))) [
      | inl refused ↦ rw refused all
      | inr scheduled ↦ rw scheduled (
          insert-AllAlternate queue path _ all (
            note_error-Alternates _ err now
              (context_of-Alternates p session path queue (lookup path queue) all refl)))
    ]

-- A call of ScheduleRetry, or of CancelRetry.
pub data Call : Type 0 where
  schedule : String → Error → ℤ → ℤ → Call
  cancel : String → Call

abbrev pub after_calls : RetryPolicy → String → List Call → RetryQueue → RetryQueue
after_calls p session [] queue = queue
after_calls p session (schedule path err count now ∷ calls) queue =
    after_calls p session calls (schedule_retry p session queue path err count now).0
after_calls p session (cancel path ∷ calls) queue =
    after_calls p session calls (cancel_retry queue path)

after_calls-AllAlternate :
    (p : RetryPolicy) (session : String) (calls : List Call) (queue : RetryQueue)
    → AllAlternate queue
    → AllAlternate (after_calls p session calls queue)
unfolding cancel_retry
after_calls-AllAlternate p session [] queue all = all
after_calls-AllAlternate p session (schedule path err count now ∷ calls) queue all =
    after_calls-AllAlternate p session calls _
      (schedule_retry-AllAlternate p session path queue err count now all)
after_calls-AllAlternate p session (cancel path ∷ calls) queue all =
    after_calls-AllAlternate p session calls _ (delete-AllAlternate queue path all)

-- Whatever retries are scheduled and cancelled, with the same error any number of times in a row,
-- the pattern of a file's error history is never "repeated_error".
pub after_calls-never_repeated :
    (p : RetryPolicy) (session : String) (calls : List Call) (path : String) (task : RetryTask)
    → lookup path (after_calls p session calls []) ≡ some task
    → get_error_pattern task.error_context ≢ repeated_error
unfolding get_error_pattern lookup
after_calls-never_repeated p session calls path task h =
    let all =
      after_calls-AllAlternate p session calls [] (λ _ t no. ground (arith, no)) path task h in
    let history = task.error_context.error_history in
    pattern_of-Alternates (reverse history) (subst Alternates (sym (reverse-reverse history)) all)
