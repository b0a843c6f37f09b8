-- ===== src/Sys/Processes.antt =====
-- The system calls on time, processes and limits of the instruction `syscall` (src/olvm.c). What the system answers is a
-- parameter.
use ol.Common.{
  length, ℕ, zero, suc, ◌+◌, ◌-◌, ◌*◌, ◌/◌, ◌^◌, Bool, List, [], ◌∷◌, Option, none, some, ℤ, pos,
  negsuc, ◌==◌, ltb, if◌then◌else◌,
}
use ol.Word.{wsize, is_port}
use ol.Word.Sign.{uvtoi}
use ol.Word.Types.{ifalse, itrue, tstring, inull}
use ol.Heap.{Heap, is_string, is_vptr, is_pair, car, cdr, new_tuple, new_bytevector}
use ol.Heap.Bytes.{new_string, store_bytes}
use ol.Number.{untoi, itoun}
use ol.Machine.{raise, Vm, Outcome, done, exits, fault, arg, set_reg}
use ol.Sys.{
  answer, answer_new, answer_if, checked, is_number, numbers, new_numbers, new_number_pair,
}
use ol.Sys.Files.{descriptor, text_of}
use ol.Sys.Network.{quotient, remainder}

-- `fork` in one process: it fails, or this is the parent, or the child
pub data Fork : Type 0 where
  failed parent child : Fork

-- the fields of `struct sysinfo` that are used
pub record SysInfo : Type 0 where
  pub uptime : ℕ
  pub loads : ℕ × ℕ × ℕ
  pub ram : ℕ × ℕ × ℕ × ℕ
  pub swap : ℕ × ℕ
  pub procs : ℕ

-- `nanosleep` of seconds and nanoseconds gives what remains, if it is interrupted. `native` calls the function at an
-- address with the machine and a list. `execve` of the memory, a path, the addresses of the arguments, if there are any,
-- and the descriptors that replace the standard ones, gives the status with which the process ends where it fails.
-- `strftime` of the memory, a format, the room in bytes and the seconds gives no bytes where there is no such time.
pub record Processes : Type 0 where
  pub nanosleep : ℤ → ℤ → Option (ℕ × ℕ)
  pub native : Vm → ℕ → ℕ → ℕ × Vm
  pub fork : Fork
  pub execve : Heap → ℕ → Option (List ℕ) → List (ℕ × ℤ) → ℕ
  pub timeofday : Option (ℕ × ℕ)
  pub time : ℕ
  pub strftime : Heap → ℕ → ℕ → ℕ → Option (List ℕ)
  pub uname : Option (List (List ℕ))
  pub rlimit : ℕ → Option (ℕ × ℕ)
  pub rusage : Option ((ℕ × ℕ) × (ℕ × ℕ))
  pub sysinfo : Option SysInfo
  pub kill : ℕ → ℕ → Bool

-- a word as a signed integer of 64 bits
abbrev pub int_t_of_word : ℕ → ℤ
int_t_of_word n = if ltb n (2 ^ 63) then pos n else negsuc (2 ^ 64 - n - 1)

abbrev pub times : ℤ → ℕ → ℤ
times (pos n) k = pos (n * k)
times (negsuc n) k = if k == 0 then pos 0 else negsuc (suc n * k - 1)

-- `for (i = 0; i < 3 && is_pair(c); i++)`: the list goes on only behind a port
unfoldable pub redirections : ℕ → ℕ → Heap → ℕ → List (ℕ × ℤ)
unfolding is_pair is_port
redirections zero i h c = []
redirections (suc n) i h c =
    let next = redirections n (i + 1) h (cdr h c) in
    let same = redirections n (i + 1) h c in
    if is_pair h c
    then (if is_port (car h c) then (i, descriptor (car h c)) ∷ next else same)
    else []

-- `while (p != INULL)`: the addresses of the strings in a list
unfoldable pub arguments : ℕ → Heap → ℕ → Option (List ℕ)
arguments zero h p = none
arguments (suc n) h p =
    let rest = arguments n h (cdr h p) in
    let more : Option (List ℕ) = elim rest [
      | none ↦ none
      | some ps ↦ some (text_of (car h p) ∷ ps)
    ] in
    if p == inull then some [] else more

-- `new_string` of one string after the other
unfoldable pub strings : Heap → List (List ℕ) → List ℕ × Heap
unfolding new_string
strings h [] = ([], h)
strings h (t ∷ ts) = let (p, h1) = new_string h t in let (ps, h2) = strings h1 ts in (p ∷ ps, h2)

-- (exit code): the machine stops, with the code in register 3
unfoldable pub sys_exit : Vm → Outcome
sys_exit s = done (record (set_reg s 3 (arg s 1)) { this = s.regs 3 })

module _ (sys : Processes) where
  -- (sleep microseconds): #true, or what remains
  unfoldable pub sys_sleep : Vm → Outcome
  unfolding untoi itoun raise
  sys_sleep s =
      let us = int_t_of_word (untoi s.heap (arg s 1)) in
      checked s (is_number s.heap (arg s 1))
        (elim (sys.nanosleep (quotient us 1000000) (times (remainder us 1000000) 1000)) [
          | none ↦ answer s itrue s
          | some (sec, nsec) ↦ answer_new s (itoun s.heap (sec * 1000000 + nsec / 1000))
        ])

  -- the child of a fork ends with the program that it becomes
  unfoldable pub become : Vm → Outcome
  unfolding is_pair arguments redirections
  become s =
      let ports = redirections 3 0 s.heap (arg s 3) in
      let command = text_of (arg s 1) in
      if is_pair s.heap (arg s 2)
      then elim (arguments s.heap.fp s.heap (arg s 2)) [
        | none ↦ fault
        | some args ↦ exits (sys.execve s.heap command (some args) ports)
      ]
      else exits (sys.execve s.heap command none ports)

  -- (execve program-or-function arguments ports)
  unfoldable pub sys_execve : Vm → Outcome
  unfolding is_vptr is_string become
  sys_execve s =
      let a = arg s 1 in
      if is_vptr s.heap a
      then (let (result, t) = sys.native s (car s.heap a) (arg s 2) in answer s result t)
      else (if is_string s.heap a
          then elim sys.fork [
            | failed ↦ answer s ifalse s
            | parent ↦ answer s itrue s
            | child ↦ become s
          ]
          else answer s ifalse s)

  -- (gettimeofday)
  unfoldable pub sys_gettimeofday : Vm → Outcome
  unfolding new_number_pair
  sys_gettimeofday s = elim sys.timeofday [
    | none ↦ answer s ifalse s
    | some (sec, usec) ↦ answer_new s (new_number_pair s.heap sec usec)
  ]

  -- the seconds in the second argument, or the current ones for #false
  unfoldable pub seconds_of : Vm → Option ℕ
  unfolding untoi
  seconds_of s =
      if arg s 2 == ifalse
      then some sys.time
      else (if is_number s.heap (arg s 2) then some (untoi s.heap (arg s 2)) else none)

  -- the time in a format: the bytes are written behind the header to be
  unfoldable pub formatted : Vm → ℕ → Outcome
  unfolding store_bytes new_bytevector
  formatted s seconds =
      let room = s.heap.end - s.heap.fp - wsize in
      elim (sys.strftime s.heap (text_of (arg s 1)) room seconds) [
        | none ↦ answer s ifalse s
        | some bytes ↦
            let h1 = store_bytes s.heap (s.heap.fp + wsize) bytes in
            answer_new s (new_bytevector h1 tstring (length bytes))
      ]

  -- (time format seconds)
  unfoldable pub sys_time : Vm → Outcome
  unfolding seconds_of formatted is_string itoun
  sys_time s = elim (seconds_of s) [
    | none ↦ answer s ifalse s
    | some seconds ↦
        if is_string s.heap (arg s 1)
        then formatted s seconds
        else answer_new s (itoun s.heap seconds)
  ]

  -- (uname)
  unfoldable pub sys_uname : Vm → Outcome
  unfolding strings new_tuple
  sys_uname s = elim sys.uname [
    | none ↦ answer s ifalse s
    | some names ↦ let (ps, h1) = strings s.heap names in answer_new s (new_tuple h1 ps)
  ]

  -- (getrlimit resource)
  unfoldable pub sys_getrlimit : Vm → Outcome
  unfolding new_numbers uvtoi
  sys_getrlimit s = elim (sys.rlimit (uvtoi (arg s 1))) [
    | none ↦ answer s ifalse s
    | some (cur, max) ↦ answer_new s (new_numbers s.heap (cur ∷ max ∷ []))
  ]

  -- (getrusage): the times of the user and of the system
  unfoldable pub sys_getrusage : Vm → Outcome
  unfolding new_number_pair new_tuple
  sys_getrusage s = elim sys.rusage [
    | none ↦ answer s ifalse s
    | some (user, system) ↦
        let (u, h1) = new_number_pair s.heap user.0 user.1 in
        let (v, h2) = new_number_pair h1 system.0 system.1 in
        answer_new s (new_tuple h2 (u ∷ v ∷ []))
  ]

  -- (sysinfo)
  unfoldable pub sys_sysinfo : Vm → Outcome
  unfolding itoun numbers new_numbers new_tuple
  sys_sysinfo s = elim sys.sysinfo [
    | none ↦ answer s ifalse s
    | some info ↦
        let (up, h1) = itoun s.heap info.uptime in
        let (l0, l1, l2) = info.loads in
        let (loads, h2) = new_numbers h1 (l0 ∷ l1 ∷ l2 ∷ []) in
        let (total, free, shared, buffers) = info.ram in
        let (swap, free_swap) = info.swap in
        let (rest, h3) =
          numbers h2 (total ∷ free ∷ shared ∷ buffers ∷ swap ∷ free_swap ∷ info.procs ∷ []) in
        answer_new s (new_tuple h3 (up ∷ loads ∷ rest))
  ]

  -- (kill process signal)
  unfoldable pub sys_kill : Vm → Outcome
  unfolding uvtoi
  sys_kill s = answer_if s (sys.kill (uvtoi (arg s 1)) (uvtoi (arg s 2)))
