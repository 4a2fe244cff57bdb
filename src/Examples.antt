-- ===== src/Examples.antt =====
-- Concrete runtimes, look-ups, connections and values, at which the other theorems are evaluated.
mod RoundTrips
mod Processing
mod Queries
mod Retrievals
mod Encodings
mod Order
mod Strings
mod WireBytes
mod Hosts
mod Objects
mod Clients
mod Messages
mod Generators
use streamsx_mongo_db.Prelude.{
  ℕ, ◌+◌, Bool, true, false, Option, none, some, List, [], ◌∷◌, ◌++◌, Bytes, bytes, ◌==◌,
  if◌then◌else◌, arith, ◌≡◌, refl, ltb, length,
}
use streamsx_mongo_db.Prelude.Int.{ℤ, pos, negsuc, pos_part}
use streamsx_mongo_db.Prelude.Words.{w32}
use streamsx_mongo_db.Spl.Types.{
  Primitive, SplType, Attributes, Value, PrimValue, SplTimestamp, boolean, float32, float64,
  decimal, complex, timestamp, rstring, ustring, blob, xml, «enum», signed, unsigned, prim, list,
  map, tuple, nil, attribute, set, blist, bmap,
}
use streamsx_mongo_db.Spl.Runtime.{Runtime}
use streamsx_mongo_db.Bson.Document
use streamsx_mongo_db.Bson.Document.{Fields, first_field}
use streamsx_mongo_db.Bson.Element.{Conversions, Library, FindsFields}
use streamsx_mongo_db.BsonCommon.Reference.{IsBuildable}
use streamsx_mongo_db.RoundTrip.Pruned.{AddsFresh, IsReadable, collect, pruned}
use streamsx_mongo_db.Operators.Driver
use streamsx_mongo_db.Operators.Driver.{
  Request, connect, get_last_error, Reply, returned, raised, Driver, State,
}
use streamsx_mongo_db.Operators.Connection.{Config, user}
use streamsx_mongo_db.Operators.Process.{Output}

abbrev pub zero_time : SplTimestamp
zero_time = record { seconds = pos 0; nanoseconds = 0; machine_id = pos 0 }

abbrev pub zero_primitive : (p : Primitive) → PrimValue p
zero_primitive Primitive.boolean = false
zero_primitive float32 = 0
zero_primitive float64 = 0
zero_primitive decimal = 0
zero_primitive complex = (0, 0)
zero_primitive timestamp = zero_time
zero_primitive rstring = []
zero_primitive ustring = []
zero_primitive blob = []
zero_primitive xml = []
zero_primitive («enum» names) = []
zero_primitive (signed w) = pos 0
zero_primitive (unsigned w) = pos 0

abbrev pub a_runtime : Runtime
a_runtime = record {
  double_of_float32 = λ d. d;
  float32_of_double = λ d. d;
  double_of_decimal = λ d. d;
  decimal_of_double = λ d. d;
  cast_integral = λ p d. pos d;
  rstring_of_ustring = λ s. s;
  ustring_of_string = λ s. s;
  rstring_of_xml = λ s. s;
  xml_of_string = λ s. s;
  create_timestamp = λ s n. record { seconds = s; nanoseconds = pos_part n; machine_id = pos 0 };
  bounded_add = λ b t vs v. if ltb (length vs) b then vs ++ (v ∷ []) else vs;
  bounded_set_add = λ b t vs v. if ltb (length vs) b then vs ++ (v ∷ []) else vs;
  set_add = λ t vs v. vs ++ (v ∷ []);
  bounded_map_add = λ b t m n v. if ltb (length m) b then m ++ ((n, v) ∷ []) else m;
  map_add = λ t m n v. m ++ ((n, v) ∷ []);
  initial_primitive = zero_primitive;
}

pub a_runtime-AddsFresh : AddsFresh a_runtime
a_runtime-AddsFresh = record {
  blist_adds = λ b t vs v l. ground arith;
  set_adds = λ t vs v new. refl;
  bset_adds = λ b t vs v new l. ground arith;
  map_adds = λ t m n v fresh. refl;
  bmap_adds = λ b t m n v fresh l. ground arith;
}

abbrev pub a_library : Library
a_library = record {
  get_field = first_field;
  get_field_dotted = first_field;
  from_json = λ text. none;
  json_string = λ fs. [];
}

pub a_library-FindsFields : FindsFields a_library
a_library-FindsFields fs n = refl

abbrev pub a_conversion : Conversions
a_conversion = record { to_double = pos_part; to_int = pos; to_long_long = pos }

-- { int32 id; list<rstring> tags; map<rstring, float64> prices; }
abbrev pub order_type : SplType
order_type = tuple (
    attribute (bytes "id") (prim (signed w32)) (
      attribute (bytes "tags") (list (prim rstring))
        (attribute (bytes "prices") (map (prim rstring) (prim float64)) nil)))

abbrev pub an_order : Value order_type
an_order =
    (negsuc 6, (bytes "new" ∷ bytes "paid" ∷ [], ((bytes "net", 7) ∷ (bytes "tax", 2) ∷ [], tt)))

pub an_order-IsBuildable : IsBuildable order_type an_order
an_order-IsBuildable =
    (refl, tt, (refl, (tt, (tt, tt)), (refl, ((refl, tt), ((refl, tt), tt)), tt)))

pub an_order-IsReadable : IsReadable a_runtime order_type an_order
an_order-IsReadable = (
  (omega arith, omega arith),
  (refl, (refl, tt)),
  ((tt, (tt, tt)), (refl, tt), ((tt, (refl, tt), (tt, tt, tt)), tt, tt)),
)

-- { set<rstring> labels; list<int32>[3] sizes; map<rstring, list<rstring> >[2] notes; }
abbrev pub shelf_type : SplType
shelf_type = tuple (
    attribute (bytes "labels") (set (prim rstring)) (
      attribute (bytes "sizes") (blist 3 (prim (signed w32)))
        (attribute (bytes "notes") (bmap 2 (prim rstring) (list (prim rstring))) nil)))

abbrev pub a_shelf : Value shelf_type
a_shelf = (
  bytes "new" ∷ bytes "low" ∷ [],
  (pos 7 ∷ negsuc 6 ∷ pos 7 ∷ [], ((bytes "net", bytes "a" ∷ []) ∷ (bytes "tax", []) ∷ [], tt)),
)

pub a_shelf-IsBuildable : IsBuildable shelf_type a_shelf
a_shelf-IsBuildable = (
  refl,
  (tt, (tt, tt)),
  (refl, (tt, (tt, (tt, tt))), (refl, ((refl, (tt, tt)), ((refl, tt), tt)), tt)),
)

low≢new : ¬ (bytes "low" ≡ bytes "new")
low≢new e = ground arith

pub a_shelf-IsReadable : IsReadable a_runtime shelf_type a_shelf
unfolding collect pruned
a_shelf-IsReadable = (
  ((tt, (tt, tt)), (tt, ((low≢new, tt), tt))),
  (refl, (refl, tt)),
  (
    (omega arith, omega arith),
    (refl, tt),
    ((((tt, tt), (refl, tt), (tt, tt, tt)), omega arith), tt, tt),
  ),
)

-- A list of lists, the middle one empty.
abbrev pub rows_type : SplType
rows_type = list (list (prim rstring))

abbrev pub rows : Value rows_type
rows = (bytes "a" ∷ []) ∷ [] ∷ (bytes "b" ∷ bytes "c" ∷ []) ∷ []

-- A connection that counts its calls, and whose third operation fails: its `getLastError` is the
-- sixth call after the connection is set.
abbrev pub counting : Driver
counting = record {
  World = ℕ;
  respond = λ q w. (if w == 5 then returned (bytes "E11000") else returned [], w + 1);
  is_failed = λ w. false;
  documents = λ w. [];
}

-- A connection whose first call fails.
abbrev pub unreachable : Driver
unreachable = record {
  World = ℕ;
  respond = λ q w. (if w == 0 then raised (bytes "refused") else returned [], w + 1);
  is_failed = λ w. false;
  documents = λ w. [];
}

abbrev pub a_config : Config
a_config = record {
  db_host = bytes "db";
  db_port = 27_017;
  auto_reconnect = true;
  credentials = user (bytes "me") (bytes "secret");
  profiling = none;
}

abbrev pub at_start : State unreachable Output
at_start = record {
  has_connection = false;
  world = 0;
  requests = [];
  log = [];
  metric = 0;
  submitted = [];
}

abbrev pub at_work : State counting Output
at_work = record {
  has_connection = true;
  world = 0;
  requests = [];
  log = [];
  metric = 0;
  submitted = [];
}
