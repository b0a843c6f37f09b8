-- ===== src/Op/Ambient.antt =====
-- `clock` and `vm:version` of src/olvm.c.
use ol.Common.{ℕ, ◌/◌, [], ◌∷◌, List, Option, none, some}
use ol.Word.Types.{tpair}
use ol.Heap.{new_pair}
use ol.Heap.Bytes.{new_string}
use ol.Machine.{Vm, Outcome, fault, set_arg, with_heap, next}
use ol.Number.{itoun}

-- __OLVM_NAME__, "OL", and __OLVM_VERSION__, "1.2"
abbrev pub olvm_name : List ℕ
olvm_name = 79 ∷ 76 ∷ []

abbrev pub olvm_version : List ℕ
olvm_version = 49 ∷ 46 ∷ 50 ∷ []

-- `clock <secs> <ticks>`, of the time that `gettimeofday` tells; where it fails the time is not initialized
unfoldable pub clock : Option (ℕ × ℕ) → Vm → Outcome
unfolding itoun
clock none s = fault
clock (some (sec, usec)) s =
    let (secs, h1) = itoun s.heap sec in
    let (ticks, h2) = itoun h1 (usec / 1000) in
    let s1 = set_arg s 0 secs in next (with_heap (set_arg s1 1 ticks) h2) 2

-- `vm:version`
unfoldable pub version : Vm → Outcome
unfolding new_string new_pair
version s =
    let (name, h1) = new_string s.heap olvm_name in
    let (number, h2) = new_string h1 olvm_version in
    let (p, h3) = new_pair h2 tpair name number in next (with_heap (set_arg s 0 p) h3) 1
