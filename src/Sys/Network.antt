-- ===== src/Sys/Network.antt =====
-- The system calls on sockets of the instruction `syscall` (src/olvm.c). What the system answers is a parameter.
use ol.Common.{
  ◌-◌, ℕ, ◌/◌, ◌%◌, ◌^◌, Bool, List, Option, none, some, ℤ, pos, negsuc, suc, neg, if◌then◌else◌,
  ◌==◌,
}
use ol.Word.{is_fix, small, is_port, make_port}
use ol.Word.Sign.{uvtoi}
use ol.Word.Types.{ifalse, tpair}
use ol.Heap.{Heap, is_npair, new_pair}
use ol.Heap.Bytes.{new_string}
use ol.Number.{untoi}
use ol.Machine.{raise, Vm, Outcome, arg}
use ol.Sys.{int_of_word, answer, answer_new, answer_if, checked, is_number}
use ol.Sys.Files.{descriptor, text_of}

-- A socket, if there is one; addresses of a host from its text or its name in the memory; the calls that only succeed or
-- fail; `accept`; whether `F_SETFL` and `F_GETFL` succeed; `select` by descriptor, seconds and microseconds; and the
-- peer: whether its address is of the family `AF_INET`, the text of it and the port.
pub record Network : Type 0 where
  pub socket : Option ℕ
  pub inet_addr : Heap → ℕ → ℕ
  pub host_by_name : Heap → ℕ → Option ℕ
  pub connect : ℤ → ℕ → ℕ → Bool
  pub shutdown : ℤ → ℕ → Bool
  pub bind : ℤ → ℕ → Bool
  pub listen : ℤ → ℕ → Bool
  pub accept : ℤ → ℤ
  pub set_nonblocking : ℕ → Bool
  pub select : ℤ → ℤ → ℤ → Bool
  pub peer : ℤ → Option (Bool × List ℕ × ℕ)

-- `n / d` and `n % d` in C
abbrev pub quotient : ℤ → ℕ → ℤ
quotient (pos n) d = pos (n / d)
quotient (negsuc n) d = neg (suc n / d)

abbrev pub remainder : ℤ → ℕ → ℤ
remainder (pos n) d = pos (n % d)
remainder (negsuc n) d = neg (suc n % d)

-- INADDR_NONE
abbrev pub inaddr_none : ℕ
inaddr_none = 2 ^ 32 - 1

module _ (net : Network) where
  -- (socket)
  unfoldable pub sys_socket : Vm → Outcome
  unfolding make_port
  sys_socket s = elim net.socket [
    | none ↦ answer s ifalse s
    | some sock ↦ answer s (make_port sock) s
  ]

  -- the address that the text is, or else the first address of the host with the name
  unfoldable pub address_of : Heap → ℕ → ℕ
  address_of h host =
      let address = net.inet_addr h host in
      if address == inaddr_none
      then elim (net.host_by_name h host) [ none ↦ inaddr_none | some found ↦ found ]
      else address

  -- (connect socket host port)
  unfoldable pub sys_connect : Vm → Outcome
  unfolding is_port address_of uvtoi raise
  sys_connect s = checked s (is_port (arg s 1)) (
      answer_if s (
        net.connect (descriptor (arg s 1)) (address_of s.heap (text_of (arg s 2)))
          (uvtoi (arg s 3) % 2 ^ 16)))

  -- (shutdown socket): both directions
  unfoldable pub sys_shutdown : Vm → Outcome
  unfolding is_port raise
  sys_shutdown s =
      checked s (is_port (arg s 1)) (answer_if s (net.shutdown (descriptor (arg s 1)) 2))

  -- (bind socket port)
  unfoldable pub sys_bind : Vm → Outcome
  unfolding is_port uvtoi raise
  sys_bind s =
      checked s (is_port (arg s 1))
        (answer_if s (net.bind (descriptor (arg s 1)) (uvtoi (arg s 2) % 2 ^ 16)))

  -- (listen socket)
  unfoldable pub sys_listen : Vm → Outcome
  unfolding is_port raise
  sys_listen s = checked s (is_port (arg s 1)) (answer_if s (net.listen (descriptor (arg s 1)) 42))

  -- (accept socket): the new port, which does not block
  unfoldable pub sys_accept : Vm → Outcome
  unfolding is_port make_port raise
  sys_accept s = checked s (is_port (arg s 1)) (elim (net.accept (descriptor (arg s 1))) [
    | negsuc e ↦ answer s ifalse s
    | pos sock ↦ answer s (if net.set_nonblocking sock then make_port sock else ifalse) s
  ])

  -- (select socket microseconds): whether there is something to read
  unfoldable pub sys_select : Vm → Outcome
  unfolding is_port is_fix is_npair untoi raise
  sys_select s =
      let time =
        if is_number s.heap (arg s 2) then int_of_word (untoi s.heap (arg s 2)) else pos 100000 in
      checked s (is_port (arg s 1)) (
        answer_if s
          (net.select (descriptor (arg s 1)) (quotient time 1000000) (remainder time 1000000)))

  -- (getpeername socket)
  unfoldable pub sys_getpeername : Vm → Outcome
  unfolding is_port new_string new_pair raise
  sys_getpeername s = checked s (is_port (arg s 1)) (elim (net.peer (descriptor (arg s 1))) [
    | none ↦ answer s ifalse s
    | some (inet, text, port) ↦
        let (p, h1) = new_string s.heap text in
        if inet
        then answer_new s (new_pair h1 tpair p (small (port % 2 ^ 16)))
        else answer s ifalse s
  ])
