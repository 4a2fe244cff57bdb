-- ===== src/Operators/Accounted.antt =====
-- A stretch of the operations of one tuple (the loop over the output attributes of the three writing
-- templates): what it sent, counted and noted, and how such stretches follow one another.
use mathlib.Core.Path.{subst, sym}
use mathlib.Core.List.{append_assoc}
use streamsx_mongo_db.Prelude.{
  ◌+◌, ◌≡◌, refl, ◌∙◌, ap, List, [], ◌∷◌, ◌++◌, Bytes, true, arith, if◌then◌else◌, All, All-append,
}
use streamsx_mongo_db.Operators.Driver.{
  Request, Driver, State, Outcome, done, thrown, fault, M, continue_with, get_last_error,
}
use streamsx_mongo_db.Operators.Process.{Output, Locals}
use streamsx_mongo_db.Operators.Requests.{is_write, writes, text_of}
use streamsx_mongo_db.Operators.Quiet.{QuietResult}
use streamsx_mongo_db.Operators.Reports.{
  Report, attempted, sent_before, successes, error_tuple, is_some, sent_before-append,
  attempted-append, successes-append, error_tuple-append,
}

-- The report is what `getLastError` says right after the operation's request, sent in some world.
abbrev pub IsTold : Driver → Report → Type 0
IsTold D ((n, q), e) = (w : D.World) × (text_of (D.respond get_last_error (D.respond q w).1).0 ≡ e)

module _ {D : Driver} where
  -- From the locals and the state before to those after: the operations were made, once each and in
  -- their order, and the reports that `getLastError` gave say what became of the metric and the error tuple.
  abbrev pub Accounted :
      List (Bytes × Request) → Locals → State D Output → Locals → State D Output → Type 0
  Accounted ops l s l' s' =
      (rs : List Report) × (attempted rs ≡ ops)
      × All (IsTold D) rs
      × (s'.metric ≡ s.metric + successes rs)
      × (l'.otuple ≡ error_tuple rs l.otuple)
      × (l.error_found ≡ is_some l.otuple → l'.error_found ≡ is_some l'.otuple)
      × (s'.submitted ≡ s.submitted)
      × (writes s'.requests ≡ sent_before (writes s.requests) ops)

  -- An exception: the first operations were sent, and nothing was submitted.
  abbrev pub Stopped : List (Bytes × Request) → State D Output → State D Output → Type 0
  Stopped ops s s' =
      (first : List (Bytes × Request)) × (rest : List (Bytes × Request)) × (ops ≡ first ++ rest)
      × (s'.submitted ≡ s.submitted)
      × (writes s'.requests ≡ sent_before (writes s.requests) first)

  abbrev pub AccountedResult :
      List (Bytes × Request) → Locals → State D Output → Outcome Locals × State D Output → Type 0
  AccountedResult ops l s (done l', s') = Accounted ops l s l' s'
  AccountedResult ops l s (thrown x, s') = Stopped ops s s'
  AccountedResult ops l s (fault, s') = ⊥

  pub Accounted-nothing : (l : Locals) (s : State D Output) → Accounted [] l s l s
  Accounted-nothing l s = ([], refl, tt, omega arith, refl, λ v. v, refl, refl)

  -- One stretch of operations after another.
  Accounted-then :
      (ops ops' : List (Bytes × Request)) (l l' : Locals) (s s' : State D Output)
      (r : Outcome Locals × State D Output)
      → Accounted ops l s l' s'
      → AccountedResult ops' l' s' r
      → AccountedResult (ops ++ ops') l s r
  Accounted-then ops ops' l l' s s' (done l'', s'') (rs, a, g, m, o, v, t, w)
        (rs', a', g', m', o', v', t', w') =
      (
        rs ++ rs',
        attempted-append rs rs' ∙ (ap (λ x. x ++ attempted rs') a ∙ ap (λ x. ops ++ x) a'),
        All-append (IsTold D) rs rs' g g',
        omega (arith, m, m', successes-append rs rs'),
        o' ∙ (ap (λ x. error_tuple rs' x) o ∙ sym (error_tuple-append rs rs' l.otuple)),
        (λ h. v' (v h)),
        t' ∙ t,
        w' ∙ (ap (λ x. sent_before x ops') w ∙ sym (sent_before-append _ ops ops')),
      )
  Accounted-then ops ops' l l' s s' (thrown x, s'') (rs, a, g, m, o, v, t, w)
        (first, rest, e, t', w') =
      (
        ops ++ first,
        rest,
        ap (λ x. ops ++ x) e ∙ sym (append_assoc ops first rest),
        t' ∙ t,
        w' ∙ (ap (λ x. sent_before x first) w ∙ sym (sent_before-append _ ops first)),
      )
  Accounted-then ops ops' l l' s s' (fault, s'') h h' = h'

  pub Accounted-continue :
      (ops ops' : List (Bytes × Request)) (l : Locals) (s : State D Output)
      (r : Outcome Locals × State D Output) (f : Locals → M D Output Locals)
      → AccountedResult ops l s r
      → ((l' : Locals) (s' : State D Output) → AccountedResult ops' l' s' (f l' s'))
      → AccountedResult (ops ++ ops') l s (continue_with r f)
  Accounted-continue ops ops' l s (done l', s') f h k =
      Accounted-then ops ops' l l' s s' (f l' s') h (k l' s')
  Accounted-continue ops ops' l s (thrown x, s') f (first, rest, e, t, w) k =
      (first, rest ++ ops', ap (λ x. x ++ ops') e ∙ append_assoc first rest ops', t, w)
  Accounted-continue ops ops' l s (fault, s') f h k = h

  -- Before an operation's report is known: the metric is unchanged, and these writes were sent.
  abbrev pub Underway : List (Bytes × Request) → State D Output → State D Output → Type 0
  Underway first s s' =
      (s'.metric ≡ s.metric)
      × (s'.submitted ≡ s.submitted)
      × (writes s'.requests ≡ sent_before (writes s.requests) first)

  abbrev pub UnderwayResult :
      {A : Type 0} → List (Bytes × Request) → State D Output → Outcome A × State D Output → Type 0
  UnderwayResult first s (done a, s') = Underway first s s'
  UnderwayResult first s (thrown x, s') = Underway first s s'
  UnderwayResult first s (fault, s') = ⊥

  pub Underway-continue :
      {A : Type 0} (first rest : List (Bytes × Request)) (l : Locals) (s : State D Output)
      (r : Outcome A × State D Output) (f : A → M D Output Locals)
      → UnderwayResult first s r
      → ((a : A) (s' : State D Output)
          → Underway first s s'
          → AccountedResult (first ++ rest) l s (f a s'))
      → AccountedResult (first ++ rest) l s (continue_with r f)
  Underway-continue first rest l s (done a, s') f h k = k a s' h
  Underway-continue first rest l s (thrown x, s') f (m, t, w) k = (first, rest, refl, t, w)
  Underway-continue first rest l s (fault, s') f h k = absurd h

  pub Underway-quiet :
      {A : Type 0} (first : List (Bytes × Request)) (s s' : State D Output)
      (r : Outcome A × State D Output)
      → Underway first s s'
      → QuietResult s' r
      → UnderwayResult first s r
  Underway-quiet first s s' (done a, s'') (m, t, w) (m', t', w') = (m' ∙ m, t' ∙ t, w' ∙ w)
  Underway-quiet first s s' (thrown x, s'') (m, t, w) (m', t', w') = (m' ∙ m, t' ∙ t, w' ∙ w)
  Underway-quiet first s s' (fault, s'') h h' = h'

  -- The operation's own request is sent.
  pub Underway-sent :
      (n : Bytes) (q : Request) (s s' : State D Output) (w : D.World)
      → is_write q ≡ true
      → Underway [] s s'
      → Underway ((n, q) ∷ []) s (record s' { world = w; requests = q ∷ s'.requests })
  Underway-sent n q s s' w h (m, t, sent) = (
    m,
    t,
    subst (λ b. (if b then q ∷ writes s'.requests else writes s'.requests) ≡ q ∷ writes s.requests)
        (sym h) (ap (λ qs. q ∷ qs) sent),
  )
