-- ===== src/Wire/Endian.antt =====
-- platform/endian.h: the byte order of the host, swaps, and the conversions between the host's order
-- and a fixed one. The swap is the header's own `bswap_slow`, written with division and remainder:
-- `|` joins disjoint bits, so it is a sum. The compiler's builtins, which the header prefers where
-- there are any, are documented to do the same.
use streamsx_mongo_db.Prelude.{ℕ, ◌+◌, ◌*◌, ◌/◌, ◌%◌}

pub data ByteOrder : Type 0 where
  little_endian big_endian : ByteOrder

unfoldable pub bswap_slow16 : ℕ → ℕ
bswap_slow16 v = v % 256 * 256 + v / 256 % 256

unfoldable pub bswap_slow32 : ℕ → ℕ
bswap_slow32 v =
    v % 256 * 16777216 + v / 256 % 256 * 65536 + v / 65536 % 256 * 256 + v / 16777216 % 256

unfoldable pub bswap_slow64 : ℕ → ℕ
bswap_slow64 v =
    v % 256 * 72057594037927936
    + v / 256 % 256 * 281474976710656
    + v / 65536 % 256 * 1099511627776
    + v / 16777216 % 256 * 4294967296
    + v / 4294967296 % 256 * 16777216
    + v / 1099511627776 % 256 * 65536
    + v / 281474976710656 % 256 * 256
    + v / 72057594037927936 % 256

-- The conversions of the system's header, by the byte order of the host.
unfoldable pub htobe16 : ByteOrder → ℕ → ℕ
unfolding bswap_slow16
htobe16 little_endian v = bswap_slow16 v
htobe16 big_endian v = v

unfoldable pub be16toh : ByteOrder → ℕ → ℕ
unfolding bswap_slow16
be16toh little_endian v = bswap_slow16 v
be16toh big_endian v = v

unfoldable pub htobe32 : ByteOrder → ℕ → ℕ
unfolding bswap_slow32
htobe32 little_endian v = bswap_slow32 v
htobe32 big_endian v = v

unfoldable pub be32toh : ByteOrder → ℕ → ℕ
unfolding bswap_slow32
be32toh little_endian v = bswap_slow32 v
be32toh big_endian v = v

unfoldable pub htobe64 : ByteOrder → ℕ → ℕ
unfolding bswap_slow64
htobe64 little_endian v = bswap_slow64 v
htobe64 big_endian v = v

unfoldable pub be64toh : ByteOrder → ℕ → ℕ
unfolding bswap_slow64
be64toh little_endian v = bswap_slow64 v
be64toh big_endian v = v

unfoldable pub htole16 : ByteOrder → ℕ → ℕ
unfolding bswap_slow16
htole16 little_endian v = v
htole16 big_endian v = bswap_slow16 v

unfoldable pub le16toh : ByteOrder → ℕ → ℕ
unfolding bswap_slow16
le16toh little_endian v = v
le16toh big_endian v = bswap_slow16 v

unfoldable pub htole32 : ByteOrder → ℕ → ℕ
unfolding bswap_slow32
htole32 little_endian v = v
htole32 big_endian v = bswap_slow32 v

unfoldable pub le32toh : ByteOrder → ℕ → ℕ
unfolding bswap_slow32
le32toh little_endian v = v
le32toh big_endian v = bswap_slow32 v

unfoldable pub htole64 : ByteOrder → ℕ → ℕ
unfolding bswap_slow64
htole64 little_endian v = v
htole64 big_endian v = bswap_slow64 v

unfoldable pub le64toh : ByteOrder → ℕ → ℕ
unfolding bswap_slow64
le64toh little_endian v = v
le64toh big_endian v = bswap_slow64 v
