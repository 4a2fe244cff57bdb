-- ===== src/Bson/Types.antt =====
-- com.ibm.streamsx.mongodb/impl/include/mongo/bson/bsontypes.h: the types of BSON elements.
use streamsx_mongo_db.Prelude.Int.{ℤ, pos, negsuc}

pub data BsonType : Type 0 where
  min_key eoo number_double string object array bin_data undefined jst_oid bool date jst_null reg_ex
        db_ref code symbol code_w_scope number_int timestamp number_long max_key :
      BsonType

-- The enumeration's values, which are the type bytes of elements, as `signed char`.
unfoldable pub type_byte : BsonType → ℤ
type_byte BsonType.min_key = negsuc 0
type_byte BsonType.eoo = pos 0
type_byte BsonType.number_double = pos 1
type_byte BsonType.string = pos 2
type_byte BsonType.object = pos 3
type_byte BsonType.array = pos 4
type_byte BsonType.bin_data = pos 5
type_byte BsonType.undefined = pos 6
type_byte BsonType.jst_oid = pos 7
type_byte BsonType.bool = pos 8
type_byte BsonType.date = pos 9
type_byte BsonType.jst_null = pos 10
type_byte BsonType.reg_ex = pos 11
type_byte BsonType.db_ref = pos 12
type_byte BsonType.code = pos 13
type_byte BsonType.symbol = pos 14
type_byte BsonType.code_w_scope = pos 15
type_byte BsonType.number_int = pos 16
type_byte BsonType.timestamp = pos 17
type_byte BsonType.number_long = pos 18
type_byte BsonType.max_key = pos 127

pub BsonType-discrete : Discrete BsonType
BsonType-discrete = hlevel
