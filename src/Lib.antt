-- ===== src/Lib.antt =====
-- A model of the SPL toolkit for MongoDB: the four operators that are generated from the templates
-- under com.ibm.streamsx.mongodb/com.ibm.streamsx.mongodb, their code generators, and inline code
-- of the bundled driver's headers.
--
-- Spl is the data of the stream processing language: Spl/Types its types and values (Value t is a
-- value of the type t; integers are unbounded and the ranges of a width are predicates), Spl/Runtime
-- the functions of the SPL runtime that the code calls, a parameter.
--
-- Bson models com.ibm.streamsx.mongodb/impl/include/mongo/bson: the element types (bsontypes.h), the
-- accessors and iterators (bsonelement.h, bsonobjiterator.h), the order of types (Bson/Canonical) and
-- the builders (bsonobjbuilder.h), all on documents as data. The
-- compiled driver's look-ups and its JSON code are the parameter Library; C++'s conversions to and
-- from double are the parameter Conversions, and a double is its bit pattern.
--
-- Wire models the same headers' byte level: Wire/Endian and Wire/Converters are platform/endian.h,
-- Wire/Host is base/data_view.h over the memory of a host of either byte order, and Wire/Numbers is
-- what a view of little-endian bytes comes to, which Wire/Views relates to it (Swaps and Orders carry
-- the proofs). Wire/Buffer is bson/util/builder.h, Wire/Writer, Wire/Frame and Wire/Nested the methods
-- of BSONObjBuilder, Wire/Reader and Wire/Checked the accessors of BSONElement, for whose proofs
-- Wire/Compound reads the longer values; Wire/Elements describes the format.
-- Wire/Objects is bson/bsonobj.h and Wire/Iteration bson/bsonobjiterator.h, on bytes; Opened and
-- Visited are about them. The buffer's doubling loop runs on fuel 32, more than the 25 doublings that
-- pass the range of int; BSONForEach runs on fuel, of which one round more than there are fields is
-- enough; lengths are natural numbers.
--
-- Bson/Ordering is bson/ordering.h, which Bson/Directions is about. Text is base/string_data.h:
-- StringData the class, Comparisons, Searches, Characters and Affixes about it; and Text/Str is
-- util/mongoutils/str.h, Splits and Stripped about it.
--
-- Net is util/net/message.h and operation.h: Headers the views of a message's header and data,
-- Messages the class Message with one or several buffers; Overwrites, Sizes and Contents are about
-- them. Client is client/dbclientinterface.h: connection strings (Servers), queries (QuerySpecs), the
-- inline commands and the connection. What these call and the driver compiles elsewhere is a
-- parameter, as are getField, woCompare and the size of an element for Wire/Objects and Iteration.
--
-- Generator is what the Perl code of the templates refuses before code is generated: types and
-- parameters (Checks), and the documents that an accepted type leads to (Shapes, Accepted).
--
-- BsonCommon is Common/BSONCommon.pm: build_bson_object is buildBSONObject, build_attributes the loop
-- of buildBSONObjectFromTuple, and so on by name. A Perl function that prints C++ and the C++ that it
-- prints are one function here, which returns what the printed code computes. BsonCommon/Reference
-- says independently which document a value stands for, BsonCommon/Total that it is the one built.
-- BsonCommon/OnBytes is the same code on the bytes of the driver's builders, with Wire; Runs, Lengths
-- and Encoded are about it.
--
-- QueryCommon is Common/QueryCommon.pm, in the same manner; a reader takes the attribute and the flag
-- valueApplied and returns both. RoundTrip is about values that are stored and read back.
--
-- Operators models the generated code: Driver is the client connection as a parameter (any function
-- from a request and a world to a reply and a world) and the monad of a thread's state with
-- exceptions and null pointers; Connection is Common/ThreadCommon_cpp.cgt, MongoOperator_cpp.cgt and
-- MongoInclude_h.cgt; Startup is Common/MongoInit_h.cgt with the constructor, the start and the
-- shutdown, and Starts says when an operator starts; Process the loop of process over the output attributes, and Writes the steps of
-- Insert/Insert_cpp.cgt, Update/Update_cpp.cgt and Delete/Delete_cpp.cgt; Queries is the process of
-- Query/Query_cpp.cgt, and QueryCommon/Row the rows that it fills. Requests, Keeps, Quiet,
-- Reports and Accounted carry the proofs of Login, Sessions, Accounts, AsIs, Steps
-- and Answers, with Emissions. Inserts, Returned and Retrieval put an Insert and a Query operator together.
--
-- Examples evaluates the theorems at concrete values and connections.
--
-- All other functions are structural recursions. Whether a C++ expression names an input
-- port's tuple is given, not read off its text. Not modelled: the freeing of memory, and the rest of the
-- bundled driver, which the operators only call.
pub mod Prelude
pub mod Spl
pub mod Bson
pub mod Text
pub mod Wire
pub mod Client
pub mod Net
pub mod BsonCommon
pub mod Generator
pub mod QueryCommon
pub mod RoundTrip
pub mod Operators
pub mod Examples
