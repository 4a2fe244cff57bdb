-- ===== src/Operators/Accounts.antt =====
-- The accounts of one tuple (`process` of Insert/Insert_cpp.cgt, Update/Update_cpp.cgt and
-- Delete/Delete_cpp.cgt): the writes sent, the metric, and the error tuple.
use mathlib.Core.Path.{subst, sym}
use mathlib.Core.Bool.{false≢true}
use streamsx_mongo_db.Prelude.{
  ◌+◌, ◌≡◌, refl, ◌∙◌, ap, Option, none, some, List, [], ◌∷◌, ◌++◌, Bytes, Bool, true, false, arith,
  All,
}
use streamsx_mongo_db.Bson.Builder
use streamsx_mongo_db.Operators.Driver.{
  Request, get_last_error, Driver, State, Outcome, done, thrown, fault, perform, write_log,
  increment, continue_with, submit, ◌>>=◌, ask, raise_reply, Reply, returned, refused, raised,
}
use streamsx_mongo_db.Operators.Connection.{Config, prepare}
use streamsx_mongo_db.Operators.Process.{
  Output, Step, skip, as_is, operation, Locals, record_result, last_error, run_step, run_steps,
  submit_found, process_steps, no_locals,
}
use streamsx_mongo_db.Operators.Requests.{writes, IsPlainWrite, text_of, is_write}
use streamsx_mongo_db.Operators.Quiet.{Quiet-prepare}
use streamsx_mongo_db.Operators.Reports.{
  operations_of, Report, attempted, sent_before, successes, error_tuple, is_some, tuples_of,
  operations_of-cons,
}
use streamsx_mongo_db.Operators.Accounted.{
  AccountedResult, Stopped, Accounted-nothing, Accounted-continue, Underway, Underway-continue,
  Underway-quiet, Underway-sent, IsTold,
}

module _ {D : Driver} where
  -- The accounts of a tuple that was processed: each operation's write was sent, once and in order,
  -- and `getLastError` was asked after it; the metric counts those without an error, and one tuple with the messages is submitted when
  -- there was an error, none otherwise.
  abbrev pub Processed : List (Bytes × Request) → State D Output → State D Output → Type 0
  Processed ops s s' =
      (rs : List Report) × (attempted rs ≡ ops)
      × All (IsTold D) rs
      × (s'.metric ≡ s.metric + successes rs)
      × (s'.submitted ≡ tuples_of (error_tuple rs none) ++ s.submitted)
      × (writes s'.requests ≡ sent_before (writes s.requests) ops)

  abbrev pub ProcessedResult :
      List (Bytes × Request) → State D Output → Outcome (Unit {0}) × State D Output → Type 0
  ProcessedResult ops s (done u, s') = Processed ops s s'
  ProcessedResult ops s (thrown x, s') = Stopped ops s s'
  ProcessedResult ops s (fault, s') = ⊥

module _ {D : Driver} (cfg : Config) where
  -- The end of an operation, given what `getLastError` says after its request.
  Accounted-record_result :
      (n : Bytes) (q : Request) (l : Locals) (s s' : State D Output) (w : D.World) (e : Bytes)
      → text_of (D.respond get_last_error (D.respond q w).1).0 ≡ e
      → Underway ((n, q) ∷ []) s s'
      → AccountedResult ((n, q) ∷ []) l s (record_result cfg n l e s')
  unfolding record_result increment write_log
  Accounted-record_result n q l s s' w [] told (m, t, sent) =
      (((n, q), []) ∷ [], refl, ((w, told), tt), omega (arith, m), refl, λ v. v, t, sent)
  Accounted-record_result n q l s s' w (c ∷ e) told (m, t, sent) =
      (((n, q), c ∷ e) ∷ [], refl, ((w, told), tt), omega (arith, m), refl, λ v. refl, t, sent)

  Accounted-told :
      (n : Bytes) (q : Request) (l : Locals) (s s' : State D Output) (w : D.World) (reply : Reply)
      → (D.respond get_last_error (D.respond q w).1).0 ≡ reply
      → Underway ((n, q) ∷ []) s s'
      → AccountedResult
          ((n, q) ∷ [])
          l
          s
          (continue_with (raise_reply reply s') (record_result cfg n l))
  unfolding raise_reply
  Accounted-told n q l s s' w (returned t) told h =
      Accounted-record_result n q l s s' w t (ap text_of told) h
  Accounted-told n q l s s' w (refused t) told h =
      Accounted-record_result n q l s s' w t (ap text_of told) h
  Accounted-told n q l s s' w (raised x) told (m, t, sent) = ((n, q) ∷ [], [], refl, t, sent)

  told_after :
      (n : Bytes) (q : Request) (l : Locals) (s s1 : State D Output)
      → is_write q ≡ true
      → Underway [] s s1
      → let sent = D.respond q s1.world in
        let told = D.respond get_last_error sent.1 in
        AccountedResult ((n, q) ∷ []) l s (
          continue_with
            (raise_reply told.0
              (record s1 { world = told.1; requests = get_last_error ∷ q ∷ s1.requests }))
            (record_result cfg n l))
  told_after n q l s s1 w h =
      let told = D.respond get_last_error (D.respond q s1.world).1 in
      Accounted-told n q l s
        (record s1 { world = told.1; requests = get_last_error ∷ q ∷ s1.requests }) s1.world told.0
        refl (Underway-sent n q s s1 told.1 w h)

  -- An operation's request is sent in the state `s1`, and then `getLastError`.
  Accounted-asked :
      (n : Bytes) (q : Request) (l : Locals) (s s1 : State D Output) (reply : Reply)
      → is_write q ≡ true
      → Underway [] s s1
      → AccountedResult ((n, q) ∷ []) l s (
          continue_with
            (raise_reply reply
              (record s1 { world = (D.respond q s1.world).1; requests = q ∷ s1.requests }))
            λ r. last_error cfg >>= record_result cfg n l)
  unfolding raise_reply last_error perform ask
  Accounted-asked n q l s s1 (returned t) w h = told_after n q l s s1 w h
  Accounted-asked n q l s s1 (refused t) w h = told_after n q l s s1 w h
  Accounted-asked n q l s s1 (raised x) w h =
      let (m, t, sent) = Underway-sent n q s s1 (D.respond q s1.world).1 w h in
      ((n, q) ∷ [], [], refl, t, sent)

  Accounted-run_step :
      (st : Step) (l : Locals) (s : State D Output)
      → IsPlainWrite st
      → AccountedResult (operations_of (st ∷ [])) l s (run_step cfg st l s)
  unfolding run_step perform ask
  Accounted-run_step skip l s w = Accounted-nothing l s
  Accounted-run_step (as_is n v) l s w = absurd w
  Accounted-run_step (operation n db (Builder.err x)) l s w = ([], [], refl, refl, refl)
  Accounted-run_step (operation n db (Builder.ok q)) l s w =
      Underway-continue [] ((n, q) ∷ []) l s (prepare cfg db s) _
        (Underway-quiet [] s s (prepare cfg db s) (refl, refl, refl) ((Quiet-prepare cfg db).run s))
        λ a s1 h1. Accounted-asked n q l s s1 (D.respond q s1.world).0 w h1

  pub Accounted-run_steps :
      (sts : List Step) (l : Locals) (s : State D Output)
      → All IsPlainWrite sts
      → AccountedResult (operations_of sts) l s (run_steps cfg sts l s)
  unfolding run_steps
  Accounted-run_steps [] l s w = Accounted-nothing l s
  Accounted-run_steps (st ∷ sts) l s w =
      subst
        (λ ops. AccountedResult ops l s (continue_with (run_step cfg st l s) (run_steps cfg sts)))
        (sym (operations_of-cons st sts))
        (Accounted-continue (operations_of (st ∷ [])) (operations_of sts) l s (run_step cfg st l s)
          (run_steps cfg sts) (Accounted-run_step st l s w.0)
          λ l' s'. Accounted-run_steps sts l' s' w.1)

  Processed-submit_found :
      (b : Bool) (o : Option Output) (ops : List (Bytes × Request)) (rs : List Report)
      (s s' : State D Output)
      → b ≡ is_some o
      → (attempted rs ≡ ops)
      → All (IsTold D) rs
      → (s'.metric ≡ s.metric + successes rs)
      → o ≡ error_tuple rs none
      → s'.submitted ≡ s.submitted
      → (writes s'.requests ≡ sent_before (writes s.requests) ops)
      → ProcessedResult ops s (submit_found cfg (record { otuple = o; error_found = b }) o s')
  unfolding submit_found submit
  Processed-submit_found true none ops rs s s' v a g m o t w = absurd (false≢true (sym v))
  Processed-submit_found false none ops rs s s' v a g m o t w =
      (rs, a, g, m, t ∙ ap (λ x. tuples_of x ++ s.submitted) o, w)
  Processed-submit_found true (some o') ops rs s s' v a g m o t w =
      (rs, a, g, m, ap (λ x. o' ∷ x) t ∙ ap (λ x. tuples_of x ++ s.submitted) o, w)
  Processed-submit_found false (some o') ops rs s s' v a g m o t w = absurd (false≢true v)

  Processed-finish :
      (ops : List (Bytes × Request)) (s : State D Output) (r : Outcome Locals × State D Output)
      → AccountedResult ops no_locals s r
      → ProcessedResult ops s (continue_with r λ l. submit_found cfg l l.otuple)
  Processed-finish ops s (done l, s') (rs, a, g, m, o, v, t, w) =
      Processed-submit_found l.error_found l.otuple ops rs s s' (v refl) a g m o t w
  Processed-finish ops s (thrown x, s') h = h
  Processed-finish ops s (fault, s') h = h

  -- A tuple whose steps write and set no `AsIs` is processed without following a null pointer: either
  -- each operation's write is sent, once and in order, the metric grows by those after which
  -- `getLastError` gives no text, and the one error tuple holds the texts of the others; or an exception ends it after the
  -- first of the writes, and nothing is submitted.
  pub process_steps-ProcessedResult :
      (sts : List Step) (s : State D Output)
      → All IsPlainWrite sts
      → ProcessedResult (operations_of sts) s (process_steps cfg sts s)
  unfolding process_steps
  process_steps-ProcessedResult sts s w =
      Processed-finish (operations_of sts) s (run_steps cfg sts no_locals s)
        (Accounted-run_steps sts no_locals s w)
