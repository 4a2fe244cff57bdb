-- ===== src/Client/Commands.antt =====
-- client/dbclientinterface.h: the database commands of DBClientWithCommands that are inline. The calls
-- of the server and the split of a namespace are compiled elsewhere, parameters; World is the server
-- as the connection sees it.
use streamsx_mongo_db.Prelude.{ℕ, Bool, true, false, Bytes, bytes, is_empty, if◌then◌else◌}
use streamsx_mongo_db.Bson.Document
use streamsx_mongo_db.Bson.Document.{Fields, BsonValue}

-- A reply with the document that the server filled in, or the code of an exception.
pub data CommandResult {ℓ} (World : Type ℓ) : Type ℓ where
  replied : Bool → Fields → World → CommandResult World
  threw : ℕ → World → CommandResult World

abbrev one_field : Bytes → BsonValue → Fields
one_field n v = Document.field n v Document.nil

module _ {ℓ} {World : Type ℓ} (simple_command : Bytes → Bytes → World → CommandResult World) where
  unfoldable pub reset_error : World → CommandResult World
  reset_error w = simple_command (bytes "admin") (bytes "reseterror") w

  unfoldable pub repair_database : Bytes → World → CommandResult World
  repair_database db_name w = simple_command db_name (bytes "repairDatabase") w

  unfoldable pub drop_database : Bytes → World → CommandResult World
  drop_database db_name w = simple_command db_name (bytes "dropDatabase") w

module _ {ℓ} {World : Type ℓ} (ns_get_db ns_get_collection : Bytes → Bytes)
    (run_command : Bytes → Fields → World → CommandResult World) where
  unfoldable pub drop_collection : Bytes → World → CommandResult World
  drop_collection ns w =
      let coll = ns_get_collection ns in
      if is_empty coll
      then threw 10_011 w
      else run_command (ns_get_db ns) (one_field (bytes "drop") (Document.string coll)) w

  unfoldable pub validate : Bytes → Bool → World → CommandResult World
  validate ns scan_data w =
      run_command (ns_get_db ns)
        (Document.field (bytes "validate") (Document.string (ns_get_collection ns))
          (one_field (bytes "scandata") (Document.bool scan_data)))
        w

-- The compiled `eval` takes the arguments as a document and fills in the value that is returned.
module _ {ℓ} {World : Type ℓ}
    (eval : Bytes → Bytes → Fields → World → (Bool × BsonValue) × World) where
  unfoldable pub eval_deprecated : Bytes → Bytes → BsonValue → World → Bool × World
  eval_deprecated db_name js_code parm1 w =
      let ((ok, value), w') = eval db_name js_code (one_field (bytes "0") parm1) w in (ok, w')

  -- The number comes back where the call did not fail; before it is what it was.
  unfoldable pub eval_number {κ} :
      {Num : Type κ}
      → (BsonValue → Num)
      → Bytes
      → Bytes
      → BsonValue
      → Num
      → World
      → (Bool × Num) × World
  eval_number number_of db_name js_code parm1 ret w =
      let ((ok, value), w') = eval db_name js_code (one_field (bytes "0") parm1) w in
      (if ok then (true, number_of value) else (false, ret), w')
