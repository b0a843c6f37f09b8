-- ===== src/Sys/Sandbox.antt =====
-- The system calls of src/olvm.c behind a successful `prctl`.
use ol.Common.{
  ℕ, ◌+◌, ◌≡◌, ◌≢◌, ◌<◌, refl, ◌∙◌, ap, true, Bool, ◌&&◌, [], ◌∷◌, ◌++◌, ltb, arith, All,
  ne→==_false,
}
use ol.Word.Sign.{uvtoi}
use ol.Machine.{Vm, arg}
use ol.Sys.Calls.{
  System, CallTable, choose, never, calls, sandbox_calls, file_calls, network_calls, process_calls,
  internal_calls, syscall,
}

-- all numbers of a table are below that of SECCOMP
abbrev plain_calls : CallTable → Bool
plain_calls [] = true
plain_calls ((c, f) ∷ rest) = ltb c 10000 && plain_calls rest

choose-plain :
    (table : CallTable) (op : ℕ) (s : Vm)
    → plain_calls table ≡ true
    → choose table (op + 10000) s ≡ never s
unfolding choose
choose-plain [] op s plain = refl
choose-plain ((c, f) ∷ rest) op s plain =
    let below : c < 10000 = ground arith in
    let others : plain_calls rest ≡ true = ground arith in
    rw (ne→==_false c (op + 10000) (omega arith)) (choose-plain rest op s others)

choose-append :
    (front rest : CallTable) (op : ℕ) (s : Vm)
    → All (λ e. e.0 ≢ op) front
    → choose (front ++ rest) op s ≡ choose rest op s
unfolding choose
choose-append [] rest op s others = refl
choose-append ((c, f) ∷ front) rest op s (ne, others) =
    rw (ne→==_false c op ne) (choose-append front rest op s others)

-- In the sandbox every system call but read, write, ioctl and sendfile gives #false and changes nothing, whatever the
-- system would answer.
pub syscall-sandboxed :
    (system : System) (gc : Vm → ℕ → Vm) (s : Vm)
    → s.sandboxp ≡ 10000
    → uvtoi (arg s 0) ≢ 0
    → uvtoi (arg s 0) ≢ 1
    → uvtoi (arg s 0) ≢ 16
    → uvtoi (arg s 0) ≢ 40
    → syscall system gc s ≡ never s
unfolding syscall sandbox_calls file_calls network_calls process_calls internal_calls
syscall-sandboxed system gc s boxed n0 n1 n16 n40 =
    let op = uvtoi (arg s 0) in
    let rest =
      file_calls system gc
      ++ network_calls system gc
      ++ process_calls system gc
      ++ internal_calls system gc in
    ap (λ n. choose (calls system gc) (op + n) s) boxed
    ∙ choose-append (sandbox_calls system gc) rest (op + 10000) s (
      (λ e. n0 (omega (arith, e))),
      (
        (λ e. n1 (omega (arith, e))),
        ((λ e. n16 (omega (arith, e))), ((λ e. n40 (omega (arith, e))), tt)),
      ),
    )
    ∙ choose-plain rest op s refl
