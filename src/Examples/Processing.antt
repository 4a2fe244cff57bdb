-- ===== src/Examples/Processing.antt =====
-- The theorems on the operators at concrete connections and tuples.
use streamsx_mongo_db.Operators.Driver.{fault}
use streamsx_mongo_db.Bson.Document.{field}
use streamsx_mongo_db.Prelude.{◌≡◌, refl, Bool, true, some, List, [], ◌∷◌, Bytes, bytes, map, ◌≤◌}
use streamsx_mongo_db.Examples.{
  a_runtime, a_library, order_type, an_order, a_config, at_start, at_work,
}
use streamsx_mongo_db.Bson.Document
use streamsx_mongo_db.Bson.Builder
use streamsx_mongo_db.Operators.Driver
use streamsx_mongo_db.Operators.Connection.{get_db_client_connection}
use streamsx_mongo_db.Operators.AsIs.{as_is-AsIsResult, AsIsResult}
use streamsx_mongo_db.Operators.Accounts.{process_steps-ProcessedResult, ProcessedResult}
use streamsx_mongo_db.Operators.Reports.{operations_of}
use streamsx_mongo_db.Operators.Requests.{logins}
use streamsx_mongo_db.Operators.Sessions.{logins-process_all}
use streamsx_mongo_db.Operators.Login.{connected_for_good, failed_connect_never_logs_in}
use streamsx_mongo_db.Operators.Steps.{insert_step-IsPlainWrite}
use streamsx_mongo_db.Operators.Process.{Step, skip, operation, process_steps, process_all, as_is}
use streamsx_mongo_db.Operators.Driver.{◌>>◌}
use streamsx_mongo_db.Operators.Writes.{Assignment, store, insert_step}

-- A write of an order: the name of the output attribute, the collection and the guard's ports.
abbrev write_order : Bytes → Bytes → List Bool → Assignment
write_order n collection named =
    store n (bytes "Insert") (bytes "shop") collection (some (bytes "order")) (some named)
      order_type an_order

abbrev three_writes : List Assignment
three_writes =
    write_order (bytes "a") (bytes "orders") (true ∷ [])
    ∷ Assignment.no_function
    ∷ write_order (bytes "b") (bytes "archive") (true ∷ [])
    ∷ write_order (bytes "c") (bytes "log") (true ∷ [])
    ∷ []

abbrev steps : List Step
steps = map (insert_step a_library a_runtime 0) three_writes

process_steps-ProcessedResult_example :
    ProcessedResult (operations_of steps) at_work (process_steps a_config steps at_work)
process_steps-ProcessedResult_example =
    process_steps-ProcessedResult a_config steps at_work
      (insert_step-IsPlainWrite a_library a_runtime 0 three_writes (tt, (tt, (tt, (tt, tt)))))

abbrev a_write : Step
a_write =
    operation (bytes "a") (bytes "shop")
      (Builder.ok (Driver.remove (bytes "shop.orders") Document.nil true))

connected_for_good_example :
    let s' = (process_all a_config ((a_write ∷ skip ∷ []) ∷ (a_write ∷ []) ∷ []) at_work).1 in
    (s'.has_connection ≡ true) × (logins s'.requests ≡ 0)
connected_for_good_example =
    connected_for_good a_config ((a_write ∷ skip ∷ []) ∷ (a_write ∷ []) ∷ []) at_work
      ((refl, (tt, tt)), ((refl, tt), tt)) refl

failed_connect_never_logs_in_example :
    let s' =
      ((get_db_client_connection a_config (bytes "shop")
          >> process_all a_config ((a_write ∷ []) ∷ (a_write ∷ []) ∷ []))
        at_start).1 in
    logins s'.requests ≡ 1
failed_connect_never_logs_in_example =
    failed_connect_never_logs_in a_config (bytes "shop") (bytes "refused")
      ((a_write ∷ []) ∷ (a_write ∷ []) ∷ []) at_start ((refl, tt), ((refl, tt), tt)) refl refl refl

logins-process_all_example :
    logins (process_all a_config ((a_write ∷ skip ∷ []) ∷ (a_write ∷ []) ∷ []) at_start).1.requests
    ≤ 2
logins-process_all_example =
    logins-process_all a_config ((a_write ∷ skip ∷ []) ∷ (a_write ∷ []) ∷ []) at_start
      ((refl, (tt, tt)), ((refl, tt), tt))

as_is-AsIsResult_example :
    AsIsResult
      (bytes "id")
      (bytes "7")
      (operations_of (a_write ∷ []))
      at_work
      (process_steps a_config (a_write ∷ as_is (bytes "id") (bytes "7") ∷ []) at_work)
as_is-AsIsResult_example =
    as_is-AsIsResult a_config (a_write ∷ []) (bytes "id") (bytes "7") at_work (refl, tt)
