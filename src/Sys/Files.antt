-- ===== src/Sys/Files.antt =====
-- The system calls on files, directories and pipes of the instruction `syscall` (src/olvm.c). A path is what stands in
-- the memory at an address; what the system answers is a parameter.
use ol.Common.{
  ℕ, zero, suc, ◌+◌, ◌-◌, ◌%◌, ◌^◌, Bool, true, false, ◌&&◌, ◌||◌, List, [], ◌∷◌, Option, none,
  some, ℤ, pos, negsuc, ◌==◌, ltb, if◌then◌else◌, bit_or, take,
}
use ol.Word.{is_reference, wsize, value, vmax, is_port, make_port}
use ol.Word.Sign.{uvtoi, svtoi}
use ol.Word.Types.{ifalse, itrue, ieof, tpair}
use ol.Heap.{Heap, is_string, new_pair}
use ol.Heap.Bytes.{new_string}
use ol.Machine.{raise, Vm, Outcome, fault, arg}
use ol.Sys.{int_of, int_of_word, redirect, answer, answer_new, answer_if, checked, new_numbers}

-- the fields of `struct stat` that are used
pub record Stat : Type 0 where
  pub dev : ℕ
  pub ino : ℕ
  pub mode : ℕ
  pub nlink : ℕ
  pub uid : ℕ
  pub gid : ℕ
  pub rdev : ℕ
  pub size : ℕ
  pub atime : ℕ
  pub mtime : ℕ
  pub ctime : ℕ

-- `open_file` of the memory, a path in it, and a mode; whether a descriptor is open and no directory; the bytes that one
-- `sendfile` has sent, or whether it is to be tried again, by the number of the round and the bytes that are left;
-- directories by their address, 0 for none. `creation` is `O_CREAT | O_TRUNC`.
pub record FileSystem : Type 0 where
  pub open_file : Heap → ℕ → ℕ → ℤ
  pub creation : ℕ
  pub is_file : ℕ → Bool
  pub close : ℤ → Bool
  pub fstat : ℤ → Option Stat
  pub lstat : Heap → ℕ → Option Stat
  pub stat : Heap → ℕ → Option Stat
  pub unlink : Heap → ℕ → Bool
  pub is_terminal : ℕ → Bool
  pub sendfile : ℤ → ℤ → ℕ → ℕ → ℤ × Bool
  pub patience : ℕ
  pub opendir : Heap → ℕ → ℕ
  pub readdir : ℕ → Option (List ℕ)
  pub chdir : Heap → ℕ → Bool
  pub pipe : Option (ℕ × ℕ)

-- `lenn(pos, max)` of the bytes at `pos`
unfoldable pub lenn : List ℕ → ℕ → ℕ
lenn bytes zero = 0
lenn [] (suc max) = 0
lenn (b ∷ bytes) (suc max) = if b == 0 then 0 else suc (lenn bytes max)

-- `port(a)` as an `int`
abbrev pub descriptor : ℕ → ℤ
descriptor a = int_of_word (value a)

-- (closedir directory): the directory is read from a field of the argument, which must be an object
unfoldable pub sys_closedir : Vm → Outcome
unfolding is_reference
sys_closedir s = if is_reference (arg s 1) then answer s itrue s else fault

-- the address of the first byte of a string
abbrev pub text_of : ℕ → ℕ
text_of a = a + wsize

-- `while (size > 0)`, of at most `fuel` rounds: whether the last call has not failed
unfoldable pub send_loop : ℕ → (ℕ → ℕ → ℤ × Bool) → ℕ → ℕ → Option Bool
send_loop fuel send round zero = some true
send_loop zero send round (suc n) = none
send_loop (suc fuel) send round (suc n) =
    let (wrote, again) = send round (suc n) in
    let retry = send_loop fuel send (round + 1) (suc n) in
    let more = send_loop fuel send (round + 1) in
    elim wrote [
      | negsuc e ↦ if again then retry else some false
      | pos m ↦ elim m [ zero ↦ some true | suc k ↦ more (n - k) ]
    ]

module _ (fs : FileSystem) where
  -- (open path mode)
  unfoldable pub sys_open : Vm → Outcome
  unfolding is_string uvtoi make_port raise
  sys_open s =
      let mode = uvtoi (arg s 2) % 2 ^ 32 in
      let creates = ltb 0 mode && ltb mode (2 ^ 31) in
      let flags = bit_or mode (if creates then fs.creation else 0) in
      checked s (is_string s.heap (arg s 1)) (elim (fs.open_file s.heap (text_of (arg s 1)) flags) [
        | negsuc e ↦ answer s ifalse s
        | pos file ↦ answer s (if fs.is_file file then make_port file else ifalse) s
      ])

  -- (close port)
  unfoldable pub sys_close : Vm → Outcome
  unfolding is_port raise
  sys_close s = checked s (is_port (arg s 1)) (answer_if s (fs.close (descriptor (arg s 1))))

  -- of a port, or of a path, whose last link is followed unless the second argument is #true
  unfoldable pub stat_of : Vm → Option Stat
  unfolding is_port is_string
  stat_of s =
      let a = arg s 1 in
      if is_port a
      then fs.fstat (descriptor a)
      else (if is_string s.heap a
          then (if arg s 2 == itrue
              then fs.lstat s.heap (text_of a)
              else fs.stat s.heap (text_of a))
          else none)

  -- (stat port/path link)
  unfoldable pub sys_stat : Vm → Outcome
  unfolding stat_of new_numbers
  sys_stat s = elim (stat_of s) [
    | none ↦ answer s ifalse s
    | some st ↦ answer_new s (
        new_numbers s.heap (
          st.dev ∷ st.ino ∷ st.mode ∷ st.nlink ∷ st.uid ∷ st.gid ∷ st.rdev ∷ st.size ∷ 0 ∷ 0
          ∷ st.atime ∷ st.mtime ∷ st.ctime ∷ []))
  ]

  -- (unlink path)
  unfoldable pub sys_unlink : Vm → Outcome
  unfolding is_string raise
  sys_unlink s =
      checked s (is_string s.heap (arg s 1)) (answer_if s (fs.unlink s.heap (text_of (arg s 1))))

  -- (ioctl port request): only whether the port is a terminal; in the sandbox the three standard ports are
  unfoldable pub sys_ioctl : Vm → Outcome
  unfolding is_port redirect uvtoi
  sys_ioctl s =
      let request = (uvtoi (arg s 2) + s.sandboxp) % 2 ^ 32 in
      if is_port (arg s 1)
      then elim (redirect s (descriptor (arg s 1))) [
        | none ↦ fault
        | some fd ↦
            if request == 19
            then answer_if s (fs.is_terminal fd)
            else (if request == 10019
                then answer_if s (fd == 0 || fd == 1 || fd == 2)
                else answer s ifalse s)
      ]
      else answer s ifalse s

  -- (sendfile port file size)
  unfoldable pub sys_sendfile : Vm → Outcome
  unfolding is_port send_loop svtoi
  sys_sendfile s =
      let send = fs.sendfile (descriptor (arg s 1)) (descriptor (arg s 2)) in
      if is_port (arg s 1) && is_port (arg s 2)
      then elim (int_of (svtoi (arg s 3))) [
        | negsuc n ↦ answer s itrue s
        | pos size ↦ elim (send_loop (size + fs.patience) send 0 size) [
          | none ↦ fault
          | some sent ↦ answer_if s sent
        ]
      ]
      else answer s ifalse s

  -- (opendir path)
  unfoldable pub sys_opendir : Vm → Outcome
  unfolding make_port
  sys_opendir s =
      let dir = fs.opendir s.heap (text_of (arg s 1)) in
      answer s (if dir == 0 then ifalse else make_port dir) s

  -- (readdir port)
  unfoldable pub sys_readdir : Vm → Outcome
  unfolding is_port lenn new_string raise
  sys_readdir s = checked s (is_port (arg s 1)) (elim (fs.readdir (value (arg s 1))) [
    | none ↦ answer s ieof s
    | some name ↦
        let len = lenn name (vmax + 1) % 2 ^ 32 in
        if len == vmax + 1
        then answer s ifalse s
        else answer_new s (new_string s.heap (take len name))
  ])

  -- (chdir path)
  unfoldable pub sys_chdir : Vm → Outcome
  sys_chdir s = answer_if s (fs.chdir s.heap (text_of (arg s 1)))

  -- (pipe): the ends for reading and for writing
  unfoldable pub sys_pipe : Vm → Outcome
  unfolding new_pair make_port
  sys_pipe s = elim fs.pipe [
    | none ↦ answer s ifalse s
    | some (from, into) ↦ answer_new s (new_pair s.heap tpair (make_port from) (make_port into))
  ]
