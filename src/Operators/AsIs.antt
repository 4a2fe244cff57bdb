-- ===== src/Operators/AsIs.antt =====
-- The output function `AsIs` (the `if (hasAsIs)` branches of Insert/Insert_cpp.cgt,
-- Update/Update_cpp.cgt and Delete/Delete_cpp.cgt) after writes.
use mathlib.Core.Path.{subst, sym}
use mathlib.Core.Bool.{false≢true}
use streamsx_mongo_db.Prelude.{
  ◌+◌, ◌≡◌, refl, ◌∙◌, ap, Option, none, some, List, [], ◌∷◌, ◌++◌, Bytes, Bool, true, false, All,
}
use streamsx_mongo_db.Operators.Driver.{
  Request, Driver, State, Outcome, done, thrown, fault, M, continue_with, submit,
}
use streamsx_mongo_db.Operators.Connection.{Config}
use streamsx_mongo_db.Operators.Process.{
  Output, Step, as_is, Locals, no_locals, run_step, run_steps, set_as_is, submit_found,
  process_steps, or_new, set_attribute,
}
use streamsx_mongo_db.Operators.Requests.{writes, IsPlainWrite}
use streamsx_mongo_db.Operators.Reports.{
  operations_of, Report, attempted, sent_before, successes, error_tuple, is_some,
}
use streamsx_mongo_db.Operators.Accounted.{AccountedResult, Stopped, IsTold}
use streamsx_mongo_db.Operators.Accounts.{Accounted-run_steps}

module _ {D : Driver} where
  -- The writes of a tuple were sent, once and in order, and `getLastError` was asked after each.
  abbrev Sent : List (Bytes × Request) → List Report → State D Output → State D Output → Type 0
  Sent ops rs s s' =
      (attempted rs ≡ ops)
      × All (IsTold D) rs
      × (s'.metric ≡ s.metric + successes rs)
      × (writes s'.requests ≡ sent_before (writes s.requests) ops)

  -- How the `AsIs` of an attribute ends: the null pointer is followed where no write reported an error;
  -- else the error tuple is submitted with the attribute set; or an exception came before.
  abbrev pub AsIsResult :
      Bytes
      → Bytes
      → List (Bytes × Request)
      → State D Output
      → Outcome (Unit {0}) × State D Output
      → Type 0
  AsIsResult n v ops s (fault, s') =
      (rs : List Report) × Sent ops rs s s'
      × All (λ (r : Report). r.1 ≡ []) rs
      × (s'.submitted ≡ s.submitted)
  AsIsResult n v ops s (done u, s') =
      (rs : List Report) × (e : Output) × Sent ops rs s s'
      × (error_tuple rs none ≡ some e)
      × (s'.submitted ≡ set_attribute n v e ∷ s.submitted)
  AsIsResult n v ops s (thrown x, s') = Stopped ops s s'

-- An error tuple that was made stays.
error_tuple-some : (rs : List Report) (o : Output) → is_some (error_tuple rs (some o)) ≡ true
unfolding or_new
error_tuple-some [] o = refl
error_tuple-some (((n, q), []) ∷ rs) o = error_tuple-some rs o
error_tuple-some (((n, q), c ∷ e) ∷ rs) o = error_tuple-some rs (set_attribute n (c ∷ e) o)

no_errors :
    (rs : List Report) → is_some (error_tuple rs none) ≡ false → All (λ (r : Report). r.1 ≡ []) rs
no_errors [] h = tt
no_errors (((n, q), []) ∷ rs) h = (refl, no_errors rs h)
no_errors (((n, q), c ∷ e) ∷ rs) h =
    absurd (false≢true (sym h ∙ error_tuple-some rs (set_attribute n (c ∷ e) (or_new none))))

module _ {D : Driver} (cfg : Config) where
  continue_with_assoc :
      {A B C : Type 0} (r : Outcome A × State D Output) (h : A → M D Output C)
      (f : A → M D Output B) (g : B → M D Output C)
      → ((a : A) (s : State D Output) → h a s ≡ continue_with (f a s) g)
      → continue_with r h ≡ continue_with (continue_with r f) g
  continue_with_assoc (done a, s) h f g k = k a s
  continue_with_assoc (thrown x, s) h f g k = refl
  continue_with_assoc (fault, s) h f g k = refl

  run_steps-append :
      (sts sts' : List Step) (l : Locals) (s : State D Output)
      → run_steps cfg (sts ++ sts') l s ≡ continue_with (run_steps cfg sts l s) (run_steps cfg sts')
  unfolding run_steps
  run_steps-append [] sts' l s = refl
  run_steps-append (st ∷ sts) sts' l s =
      continue_with_assoc (run_step cfg st l s) _ (run_steps cfg sts) (run_steps cfg sts')
        λ l' s'. run_steps-append sts sts' l' s'

  as_is_after :
      (n v : Bytes) (b : Bool) (o : Option Output) (ops : List (Bytes × Request)) (rs : List Report)
      (s s' : State D Output)
      → b ≡ is_some o
      → Sent ops rs s s'
      → o ≡ error_tuple rs none
      → s'.submitted ≡ s.submitted
      → AsIsResult n v ops s (
          continue_with
            (run_steps cfg (as_is n v ∷ []) (record { otuple = o; error_found = b }) s')
            λ k. submit_found cfg k k.otuple)
  unfolding run_steps run_step set_as_is submit_found submit
  as_is_after n v b none ops rs s s' f sent o t = (rs, sent, no_errors rs (sym (ap is_some o)), t)
  as_is_after n v true (some e) ops rs s s' f sent o t =
      (rs, e, sent, sym o, ap (λ x. set_attribute n v e ∷ x) t)
  as_is_after n v false (some e) ops rs s s' f sent o t = absurd (false≢true f)

  as_is_finish :
      (n v : Bytes) (ops : List (Bytes × Request)) (s : State D Output)
      (r : Outcome Locals × State D Output)
      → AccountedResult ops no_locals s r
      → AsIsResult n v ops s (
          continue_with
            (continue_with r (run_steps cfg (as_is n v ∷ [])))
            λ k. submit_found cfg k k.otuple)
  as_is_finish n v ops s (done l, s') (rs, a, g, m, o, f, t, w) =
      as_is_after n v l.error_found l.otuple ops rs s s' (f refl) (a, g, m, w) o t
  as_is_finish n v ops s (thrown x, s') h = h
  as_is_finish n v ops s (fault, s') h = absurd h

  -- After steps that write and set no `AsIs`, an `AsIs` on the last attribute follows the null pointer
  -- `otuplePtr` only if `getLastError` gave no text after any of the writes, which were all sent, and
  -- nothing is submitted; it ends well only if there was such a text, and then the error tuple is
  -- submitted with the attribute set; or an exception came before, and nothing is submitted.
  pub as_is-AsIsResult :
      (before : List Step) (n v : Bytes) (s : State D Output)
      → All IsPlainWrite before
      → AsIsResult n v (operations_of before) s (process_steps cfg (before ++ (as_is n v ∷ [])) s)
  unfolding process_steps
  as_is-AsIsResult before n v s w =
      subst
        (λ r.
          AsIsResult n v (operations_of before) s
            (continue_with r λ k. submit_found cfg k k.otuple))
        (sym (run_steps-append before (as_is n v ∷ []) no_locals s))
        (as_is_finish n v (operations_of before) s (run_steps cfg before no_locals s)
          (Accounted-run_steps cfg before no_locals s w))
