-- ===== src/Dict/Base.antt =====
-- The AVPs of the base protocol: the switch of `diaBaseGetAvpInfo` (common/src/diaAvpHelper.c),
-- with the codes of common/include/diaBaseAvp.h. The flags are 0x40 where the case sets none.
use diameter.Common.{List, [], ◌∷◌}
use diameter.Msg.{grouped_type, octet_string_type, uint32_type, uint64_type}
use diameter.Dict.Rows.{AvpRow, row}

unfoldable pub base_rows_1 : List AvpRow
base_rows_1 =
    row 1263 0x80 octet_string_type
    ∷ row 259 0x40 uint32_type
    ∷ row 85 0x40 uint32_type
    ∷ row 50 0x40 octet_string_type
    ∷ row 480 0x40 uint32_type
    ∷ row 483 0x40 uint32_type
    ∷ row 485 0x40 uint32_type
    ∷ row 44 0x40 octet_string_type
    ∷ row 287 0x40 uint64_type
    ∷ row 258 0x40 uint32_type
    ∷ row 276 0x40 uint32_type
    ∷ row 291 0x40 uint32_type
    ∷ row 274 0x40 uint32_type
    ∷ row 277 0x40 uint32_type
    ∷ row 25 0x40 octet_string_type
    ∷ row 293 0x40 octet_string_type
    ∷ row 283 0x40 octet_string_type
    ∷ row 273 0x40 uint32_type
    ∷ row 281 0x00 octet_string_type
    ∷ row 294 0x40 octet_string_type
    ∷ row 55 0x40 octet_string_type
    ∷ row 297 0x40 grouped_type
    ∷ row 298 0x40 uint32_type
    ∷ row 279 0x40 grouped_type
    ∷ row 267 0x00 uint32_type
    ∷ row 257 0x40 octet_string_type
    ∷ []

unfoldable pub base_rows_2 : List AvpRow
base_rows_2 =
    row 299 0x40 uint32_type
    ∷ row 272 0x00 uint32_type
    ∷ row 264 0x40 octet_string_type
    ∷ row 296 0x40 octet_string_type
    ∷ row 278 0x40 uint32_type
    ∷ row 269 0x00 octet_string_type
    ∷ row 280 0x40 octet_string_type
    ∷ row 284 0x40 grouped_type
    ∷ row 33 0x40 octet_string_type
    ∷ row 292 0x40 octet_string_type
    ∷ row 282 0x40 octet_string_type
    ∷ row 285 0x40 uint32_type
    ∷ row 261 0x40 uint32_type
    ∷ row 262 0x00 uint32_type
    ∷ row 268 0x00 uint32_type
    ∷ row 270 0x40 uint32_type
    ∷ row 263 0x40 octet_string_type
    ∷ row 271 0x40 uint32_type
    ∷ row 27 0x40 uint32_type
    ∷ row 265 0x40 uint32_type
    ∷ row 295 0x40 uint32_type
    ∷ row 266 0x40 uint32_type
    ∷ row 1 0x40 octet_string_type
    ∷ row 260 0x40 grouped_type
    ∷ []
