-- ===== src/Heap/Bytes.antt =====
-- Bytes of the heap on a little-endian machine.
use ol.Common.{ℕ, ◌+◌, ◌-◌, ◌*◌, ◌/◌, ◌%◌, ◌^◌, List, [], ◌∷◌, length, ℤ, pos, negsuc}
use ol.Heap.{Heap, load, store, new_bytevector}
use ol.Word.{wsize}
use ol.Word.Types.{tstring}

-- `((unsigned char*) p)[i]`, `a` being `p + i`
unfoldable pub load_byte : Heap → ℕ → ℕ
load_byte h a = load h (a - a % wsize) / 256 ^ (a % wsize) % 256

unfoldable pub store_byte : Heap → ℕ → ℕ → Heap
unfolding load_byte
store_byte h a b =
    let w = load h (a - a % wsize) in
    let unit = 256 ^ (a % wsize) in
    store h (a - a % wsize) (w - load_byte h a * unit + b % 256 * unit)

unfoldable pub store_bytes : Heap → ℕ → List ℕ → Heap
unfolding store_byte
store_bytes h a [] = h
store_bytes h a (b ∷ bs) = store_bytes (store_byte h a b) (a + 1) bs

-- `(char) i`
unfoldable pub char_of : ℤ → ℕ
char_of (pos n) = n % 256
char_of (negsuc n) = 255 - n % 256

-- `new_string(string, length)` of the bytes of a string
unfoldable pub new_string : Heap → List ℕ → ℕ × Heap
unfolding new_bytevector store_bytes
new_string h bytes =
    let (p, h') = new_bytevector h tstring (length bytes) in (p, store_bytes h' (p + wsize) bytes)
