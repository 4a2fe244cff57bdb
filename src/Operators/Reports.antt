-- ===== src/Operators/Reports.antt =====
-- What the steps of one tuple amount to: each operation with the message of its `getLastError`.
use streamsx_mongo_db.Prelude.{
  ℕ, suc, ◌+◌, ◌≡◌, refl, ap, Option, none, some, List, [], ◌∷◌, ◌++◌, map, Bytes, Bool, true,
  false, arith,
}
use streamsx_mongo_db.Bson.Builder
use streamsx_mongo_db.Operators.Driver.{Request}
use streamsx_mongo_db.Operators.Process.{
  Output, Step, skip, as_is, operation, set_attribute, or_new,
}

-- The operations that a tuple's steps are to make: the output attribute and the request.
abbrev pub operations_of : List Step → List (Bytes × Request)
operations_of [] = []
operations_of (operation n db (Builder.ok q) ∷ sts) = (n, q) ∷ operations_of sts
operations_of (_ ∷ sts) = operations_of sts

pub operations_of-cons :
    (st : Step) (sts : List Step)
    → operations_of (st ∷ sts) ≡ operations_of (st ∷ []) ++ operations_of sts
operations_of-cons skip sts = refl
operations_of-cons (as_is n v) sts = refl
operations_of-cons (operation n db (Builder.err x)) sts = refl
operations_of-cons (operation n db (Builder.ok q)) sts = refl

-- An operation and the text of its last error, empty when it succeeded.
abbrev pub Report : Type 0
Report = (Bytes × Request) × Bytes

abbrev pub attempted : List Report → List (Bytes × Request)
attempted rs = map (λ r. r.0) rs

-- The requests of the operations, the latest first, before those made earlier.
abbrev pub sent_before : List Request → List (Bytes × Request) → List Request
sent_before earlier [] = earlier
sent_before earlier ((n, q) ∷ ops) = sent_before (q ∷ earlier) ops

abbrev pub successes : List Report → ℕ
successes [] = 0
successes ((op, []) ∷ rs) = suc (successes rs)
successes ((op, c ∷ e) ∷ rs) = successes rs

-- The error tuple, if an operation failed: under each failed attribute's name its last message.
abbrev pub error_tuple : List Report → Option Output → Option Output
error_tuple [] o = o
error_tuple (((n, q), []) ∷ rs) o = error_tuple rs o
error_tuple (((n, q), c ∷ e) ∷ rs) o = error_tuple rs (some (set_attribute n (c ∷ e) (or_new o)))

abbrev pub is_some : Option Output → Bool
is_some none = false
is_some (some o) = true

abbrev pub tuples_of : Option Output → List Output
tuples_of none = []
tuples_of (some o) = o ∷ []

pub sent_before-append :
    (qs : List Request) (ops ops' : List (Bytes × Request))
    → sent_before qs (ops ++ ops') ≡ sent_before (sent_before qs ops) ops'
sent_before-append qs [] ops' = refl
sent_before-append qs ((n, q) ∷ ops) ops' = sent_before-append (q ∷ qs) ops ops'

pub attempted-append :
    (rs rs' : List Report) → attempted (rs ++ rs') ≡ attempted rs ++ attempted rs'
attempted-append [] rs' = refl
attempted-append (r ∷ rs) rs' = ap (λ xs. r.0 ∷ xs) (attempted-append rs rs')

pub successes-append : (rs rs' : List Report) → successes (rs ++ rs') ≡ successes rs + successes rs'
successes-append [] rs' = omega arith
successes-append ((op, []) ∷ rs) rs' = omega (arith, successes-append rs rs')
successes-append ((op, c ∷ e) ∷ rs) rs' = successes-append rs rs'

pub error_tuple-append :
    (rs rs' : List Report) (o : Option Output)
    → error_tuple (rs ++ rs') o ≡ error_tuple rs' (error_tuple rs o)
error_tuple-append [] rs' o = refl
error_tuple-append (((n, q), []) ∷ rs) rs' o = error_tuple-append rs rs' o
error_tuple-append (((n, q), c ∷ e) ∷ rs) rs' o = error_tuple-append rs rs' _
