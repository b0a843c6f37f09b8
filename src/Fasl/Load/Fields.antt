-- ===== src/Fasl/Load/Fields.antt =====
-- The fields of a loaded object, with references read in the table.
use ol.Common.{ℕ, ◌+◌, ◌-◌, ◌*◌, ◌≤◌, ◌<◌, ◌≡◌, refl, sym, ◌∙◌, List, [], ◌∷◌, arith, length, All}
use ol.Word.{wsize}
use ol.Heap.{Heap, load}
use ol.Fasl.{push_word}
use ol.Fasl.Image.{Field, imm, back, FieldFits}
use ol.Fasl.Load.{field_word, put_fields}

-- the fields of an object from `addr` on, with references read in the table
abbrev pub FieldsAt : Heap → ℕ → ℕ → ℕ → List Field → Type 0
FieldsAt h ptrs pos addr [] = Unit
FieldsAt h ptrs pos addr (f ∷ fs) =
    (load h addr ≡ field_word h ptrs pos f) × FieldsAt h ptrs pos (addr + wsize) fs

field_word-same :
    (h h' : Heap) (ptrs pos : ℕ) (f : Field)
    → FieldFits pos f
    → ((a : ℕ) → a < ptrs + pos * wsize → h'.mem a ≡ h.mem a)
    → field_word h' ptrs pos f ≡ field_word h ptrs pos f
unfolding field_word
field_word-same h h' ptrs pos (imm type n) fits same = refl
field_word-same h h' ptrs pos (back diff) (lo, le, hi) same =
    same (ptrs + (pos - diff) * wsize) (omega arith)

pub FieldsAt-same :
    (fs : List Field) (h h' : Heap) (ptrs pos addr : ℕ)
    → All (FieldFits pos) fs
    → ((a : ℕ) → a < ptrs + pos * wsize → h'.mem a ≡ h.mem a)
    → ((a : ℕ) → addr ≤ a → a < addr + length fs * wsize → h'.mem a ≡ h.mem a)
    → FieldsAt h ptrs pos addr fs
    → FieldsAt h' ptrs pos addr fs
FieldsAt-same [] h h' ptrs pos addr fits same own at = tt
FieldsAt-same (f ∷ fs) h h' ptrs pos addr (fit, fits) same own (e, es) = (
  own addr (omega arith) (omega arith) ∙ e ∙ sym (field_word-same h h' ptrs pos f fit same),
  FieldsAt-same fs h h' ptrs pos (addr + wsize) fits same
      (λ a lo hi. own a (omega arith) (omega arith)) es,
)

pub put_fields_lem :
    (fs : List Field) (h : Heap) (ptrs pos : ℕ)
    → ptrs + pos * wsize ≤ h.fp
    → All (FieldFits pos) fs
    → ((put_fields h ptrs pos fs).fp ≡ h.fp + length fs * wsize)
      × ((a : ℕ) → a < h.fp → (put_fields h ptrs pos fs).mem a ≡ h.mem a)
      × FieldsAt (put_fields h ptrs pos fs) ptrs pos h.fp fs
unfolding put_fields
put_fields_lem [] h ptrs pos le fits = (omega arith, λ a lt. refl, tt)
put_fields_lem (f ∷ fs) h ptrs pos le (fit, fits) =
    let w = field_word h ptrs pos f in
    let h1 : Heap = push_word h w in
    let (end, same, at) = put_fields_lem fs h1 ptrs pos (omega arith) fits in
    let below : (a : ℕ) → a < h.fp → (put_fields h1 ptrs pos fs).mem a ≡ h.mem a =
      λ a lt. same a (omega arith) ∙ ground arith in
    (
      omega arith,
      below,
      (
        same h.fp (omega arith)
            ∙ ground arith
            ∙ sym (
                field_word-same h (put_fields h1 ptrs pos fs) ptrs pos f fit
                  (λ a lt. below a (omega arith))),
        at,
      ),
    )
