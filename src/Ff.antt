-- ===== src/Ff.antt =====
-- `get` of src/olvm.c: the search of a key in a tree of ff nodes.
pub mod Toggle
pub mod Tree
pub mod Order
pub mod Build
pub mod Descent
pub mod Persistence
use ol.Common.{ℕ, zero, suc, Option, none, some, ◌==◌, ltb, if◌then◌else◌}
use ol.Word.{hdrsize}
use ol.Word.Types.{iempty}
use ol.Heap.{Heap, load, ref}
use ol.Op.Node.{right_bit}

-- the branch that the search takes at a node, or `none` where it ends without the key: `some (some ff)`
-- goes on, `some none` gives up, `none` is a node that no constructor makes
unfoldable pub branch : Heap → ℕ → ℕ → ℕ → Option (Option ℕ)
branch h ff key this =
    let hdr = load h ff in
    if hdrsize hdr == 5
    then some (some (if ltb key this then ref h ff 3 else ref h ff 4))
    else (if hdrsize hdr == 3
        then some none
        else (if hdrsize hdr == 4
            then (if ltb key this
                then some (some (if right_bit hdr then iempty else ref h ff 3))
                else some (some (if right_bit hdr then ref h ff 3 else iempty)))
            else none))

-- `none`: the loop does not end within the rounds given, or meets no node
unfoldable pub get : ℕ → Heap → ℕ → ℕ → ℕ → Option ℕ
unfolding branch
get zero h ff key default = none
get (suc n) h ff key default =
    let this = ref h ff 1 in
    let found : Option ℕ = elim (branch h ff key this) [
      | none ↦ none
      | some way ↦ elim way [ none ↦ some default | some ff' ↦ get n h ff' key default ]
    ] in
    if ff == iempty then some default else (if this == key then some (ref h ff 2) else found)
