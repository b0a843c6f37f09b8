-- ===== src/Gc/Objects.antt =====
-- The heap as a row of objects.
use ol.Common.{
  ℕ, suc, ◌+◌, ◌*◌, ◌<◌, ◌≡◌, refl, ◌∙◌, ap, List, [], ◌∷◌, length, if◌then◌else◌, arith,
}
use ol.Word.{wsize, is_rawobject, hdrsize}
use ol.Heap.{Heap, load}
use ol.Gc.Resize.{fix_field}

-- an object: its header, and the words behind it
abbrev pub Obj : Type 0
Obj = ℕ × List ℕ

-- words from an address on
abbrev pub WordsAt : Heap → ℕ → List ℕ → Type 0
WordsAt h a [] = Unit
WordsAt h a (w ∷ ws) = (load h a ≡ w) × WordsAt h (a + wsize) ws

-- objects from an address on, one behind the other
abbrev pub ObjsAt : Heap → ℕ → List Obj → Type 0
ObjsAt h a [] = Unit
ObjsAt h a ((hdr, ws) ∷ os) =
    (load h a ≡ hdr)
    × (hdrsize hdr ≡ length ws + 1)
    × WordsAt h (a + wsize) ws
    × ObjsAt h (a + (length ws + 1) * wsize) os

unfoldable pub extent : List Obj → ℕ
extent [] = 0
extent ((hdr, ws) ∷ os) = length ws + 1 + extent os

abbrev pub fix_words : ℕ → List ℕ → List ℕ
fix_words delta [] = []
fix_words delta (w ∷ ws) = fix_field delta w ∷ fix_words delta ws

-- an object after a move: the words of a raw object stay
abbrev pub fix_objs : ℕ → List Obj → List Obj
fix_objs delta [] = []
fix_objs delta ((hdr, ws) ∷ os) =
    (hdr, if is_rawobject hdr then ws else fix_words delta ws) ∷ fix_objs delta os

pub length-fix_words : (delta : ℕ) (ws : List ℕ) → length (fix_words delta ws) ≡ length ws
length-fix_words delta [] = refl
length-fix_words delta (w ∷ ws) = ap suc (length-fix_words delta ws)

-- the same words where the memory is the same
pub WordsAt-same :
    (ws : List ℕ) (h h' : Heap) (a b : ℕ)
    → ((i : ℕ) → i < length ws * wsize → h'.mem (b + i) ≡ h.mem (a + i))
    → WordsAt h a ws
    → WordsAt h' b ws
WordsAt-same [] h h' a b same at = tt
WordsAt-same (w ∷ ws) h h' a b same (e, at) = (
  ap h'.mem (omega arith) ∙ same 0 (omega arith) ∙ ap h.mem {y = a} (omega arith) ∙ e,
  WordsAt-same ws h h' (a + wsize) (b + wsize)
      (λ i lt.
        ap h'.mem (omega arith)
        ∙ same (wsize + i) (omega arith)
        ∙ ap h.mem {y = a + wsize + i} (omega arith))
      at,
)

pub ObjsAt-same :
    (os : List Obj) (h h' : Heap) (a b : ℕ)
    → ((i : ℕ) → i < extent os * wsize → h'.mem (b + i) ≡ h.mem (a + i))
    → ObjsAt h a os
    → ObjsAt h' b os
unfolding extent
ObjsAt-same [] h h' a b same at = tt
ObjsAt-same ((hdr, ws) ∷ os) h h' a b same (e, size, words, at) = (
  ap h'.mem (omega arith) ∙ same 0 (omega arith) ∙ ap h.mem {y = a} (omega arith) ∙ e,
  size,
  WordsAt-same ws h h' (a + wsize) (b + wsize)
      (λ i lt.
        ap h'.mem (omega arith)
        ∙ same (wsize + i) (omega arith)
        ∙ ap h.mem {y = a + wsize + i} (omega arith))
      words,
  ObjsAt-same os h h' (a + (length ws + 1) * wsize) (b + (length ws + 1) * wsize)
      (λ i lt.
        ap h'.mem (omega arith)
        ∙ same ((length ws + 1) * wsize + i) (omega arith)
        ∙ ap h.mem {y = a + (length ws + 1) * wsize + i} (omega arith))
      at,
)
