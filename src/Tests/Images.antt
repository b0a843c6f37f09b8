-- ===== src/Tests/Images.antt =====
-- An image of a raw object and a pair, loaded and started.
use ol.Common.{◌+◌, ◌*◌, ◌≡◌, refl, arith, List, [], ◌∷◌, ◌++◌, length}
use ol.Word.{wsize}
use ol.Word.Types.{tpair, tstring}
use ol.Heap.{Heap}
use ol.Fasl.{Bytes, ok, deserialize, count_fasl_objects}
use ol.Fasl.Image.{Item, plain, raw, imm, back, encode_items, total_words, ItemsFit}
use ol.Fasl.Count.{count_fasl_objects-encode}
use ol.Fasl.Load.Placed.{ItemsAt, deserialize-ItemsAt}
use ol.Fasl.Loads.{Loads}
use ol.Fasl.Agree.{Filled, count_fasl_objects-deserialize}
use ol.Api.{Host, Ol}
use ol.Api.Boot.{Booted, ol_new_lem}

abbrev text : Item
text = raw tstring (104 ∷ 105 ∷ [])

-- its tail is the string before it
abbrev two_fields : Item
two_fields = plain tpair (imm 0 7 ∷ back 1 ∷ [])

abbrev image : List Item
image = text ∷ two_fields ∷ []

image-ItemsFit : ItemsFit 0 image
image-ItemsFit =
    (omega arith, ((omega arith, (omega arith, ((omega arith, omega arith, omega arith), tt))), tt))

image-words : total_words image ≡ 5
unfolding total_words
image-words = refl

count_example :
    count_fasl_objects (encode_items image ++ (0 ∷ [])) ≡ ok (total_words image, length image)
count_example = count_fasl_objects-encode image [] image-ItemsFit (omega (arith, image-words))

-- one object, whose only field leads out of the table
abbrev broken : Bytes
broken = 1 ∷ 1 ∷ 1 ∷ 2 ∷ 0 ∷ []

broken-counted : count_fasl_objects broken ≡ ok (2, 1)
unfolding count_fasl_objects
broken-counted = refl

-- a heap with a table of two entries in front
abbrev heap : Heap
heap = record { begin = 1024; end = 65536; genstart = 1024; fp = 1048; mem = λ a. 0 }

deserialize_example :
    (h' : Heap) × (deserialize (length image) heap (encode_items image ++ (0 ∷ [])) 1032 0
      ≡ ok (h', 0 ∷ []))
    × (h'.fp ≡ heap.fp + total_words image * wsize)
    × ItemsAt h' 1032 0 heap.fp image
deserialize_example = deserialize-ItemsAt image heap 1032 (0 ∷ []) (omega arith) refl image-ItemsFit

agree_example : Loads (deserialize 1 heap broken 1032 0) (Filled (heap.fp + 2 * wsize))
agree_example = count_fasl_objects-deserialize broken 2 1 heap 1032 broken-counted

abbrev host : Host
host = record { block = 4096; contents = λ a. 0; exit = 16; read = 24; write = 32 }

ol_new_example : (ol : Ol) × Booted host image [] ol
ol_new_example =
    ol_new_lem host image [] (omega arith) refl image-ItemsFit (omega (arith, image-words))

-- the machine of the image
abbrev booted : (ol : Ol) × Booted host image [] ol
booted = ol_new_lem host image [] (omega arith) refl image-ItemsFit (omega (arith, image-words))
