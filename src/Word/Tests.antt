-- ===== src/Word/Tests.antt =====
-- The constants are the words that the macros build, and some fields of concrete words.
use ol.Common.{◌≡◌, refl}
use ol.Word.Types.{tconst, ifalse, itrue, inull, iempty, ieof, ireturn, tpair}
use ol.Word.{make_value, make_header}

constants :
    (make_value tconst 0 ≡ ifalse)
    × (make_value tconst 1 ≡ itrue)
    × (make_value tconst 2 ≡ inull)
    × (make_value tconst 3 ≡ iempty)
    × (make_value tconst 4 ≡ ieof)
    × (make_value tconst 6 ≡ ireturn)
unfolding make_value
constants = (refl, refl, refl, refl, refl, refl)

pair_header : make_header tpair 3 ≡ 0x30006
unfolding make_header
pair_header = refl
