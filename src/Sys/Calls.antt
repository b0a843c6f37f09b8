-- ===== src/Sys/Calls.antt =====
-- The choice of a system call by its number in the instruction `syscall` (src/olvm.c), with the numbers of Linux on x86-64.
use ol.Common.{ℕ, ◌+◌, ◌++◌, List, [], ◌∷◌, ◌==◌, if◌then◌else◌}
use ol.Word.Sign.{uvtoi}
use ol.Word.Types.{ifalse, itrue}
use ol.Machine.{Vm, Outcome, arg}
use ol.Sys.{Os, answer, sys_read, sys_write, sys_brk, sys_prctl}
use ol.Sys.Files.{
  FileSystem, sys_open, sys_close, sys_stat, sys_unlink, sys_ioctl, sys_sendfile, sys_opendir,
  sys_readdir, sys_chdir, sys_pipe, sys_closedir,
}
use ol.Sys.Network.{
  Network, sys_socket, sys_connect, sys_shutdown, sys_bind, sys_listen, sys_accept, sys_select,
  sys_getpeername,
}
use ol.Sys.Processes.{
  Processes, sys_sleep, sys_execve, sys_gettimeofday, sys_time, sys_exit, sys_uname, sys_getrlimit,
  sys_getrusage, sys_sysinfo, sys_kill,
}
use ol.Sys.Internal.{
  Surroundings, sys_gc, sys_rawq, sys_userdata, sys_set_limit, sys_get_limit, sys_wordsize,
  sys_set_ticker, sys_memory_stats, sys_getenv, sys_system,
}
use ol.Sys.Libraries.{Linker, sys_dlopen, sys_dlclose, sys_dlsym, sys_dlerror, sys_mkcb}

-- What the machine takes from the system, by the parts of it.
pub record System : Type 0 where
  pub os : Os
  pub files : FileSystem
  pub network : Network
  pub processes : Processes
  pub around : Surroundings
  pub linker : Linker

abbrev pub always : Vm → Outcome
always s = answer s itrue s

abbrev pub never : Vm → Outcome
never s = answer s ifalse s

abbrev pub CallTable : Type 0
CallTable = List (ℕ × (Vm → Outcome))

-- a number that no `case` has gives #false
unfoldable pub choose : CallTable → ℕ → Vm → Outcome
choose [] op s = never s
choose ((c, f) ∷ rest) op s = if c == op then f s else choose rest op s

module _ (system : System) (gc : Vm → ℕ → Vm) where
  -- the calls that are left behind `prctl`: their numbers are raised by SECCOMP
  unfoldable pub sandbox_calls : CallTable
  sandbox_calls =
      (10000, sys_read system.os gc)
      ∷ (10001, sys_write system.os gc)
      ∷ (10016, sys_ioctl system.files)
      ∷ (10040, sys_sendfile system.files)
      ∷ []

  unfoldable pub file_calls : CallTable
  file_calls =
      (0, sys_read system.os gc)
      ∷ (1, sys_write system.os gc)
      ∷ (2, sys_open system.files)
      ∷ (3, sys_close system.files)
      ∷ (4, sys_stat system.files)
      ∷ (87, sys_unlink system.files)
      ∷ (12, sys_brk system.os gc)
      ∷ (16, sys_ioctl system.files)
      ∷ (24, always)
      ∷ (40, sys_sendfile system.files)
      ∷ (1011, sys_opendir system.files)
      ∷ (78, sys_readdir system.files)
      ∷ (1012, sys_readdir system.files)
      ∷ (1020, sys_chdir system.files)
      ∷ (80, sys_chdir system.files)
      ∷ (1013, sys_closedir)
      ∷ (22, sys_pipe system.files)
      ∷ []

  unfoldable pub network_calls : CallTable
  network_calls =
      (41, sys_socket system.network)
      ∷ (42, sys_connect system.network)
      ∷ (48, sys_shutdown system.network)
      ∷ (49, sys_bind system.network)
      ∷ (50, sys_listen system.network)
      ∷ (43, sys_accept system.network)
      ∷ (23, sys_select system.network)
      ∷ (51, sys_getpeername system.network)
      ∷ []

  unfoldable pub process_calls : CallTable
  process_calls =
      (35, sys_sleep system.processes)
      ∷ (57, never)
      ∷ (59, sys_execve system.processes)
      ∷ (61, never)
      ∷ (96, sys_gettimeofday system.processes)
      ∷ (201, sys_time system.processes)
      ∷ (60, sys_exit)
      ∷ (63, sys_uname system.processes)
      ∷ (97, sys_getrlimit system.processes)
      ∷ (98, sys_getrusage system.processes)
      ∷ (99, sys_sysinfo system.processes)
      ∷ (62, sys_kill system.processes)
      ∷ []

  unfoldable pub internal_calls : CallTable
  internal_calls =
      (1000, sys_gc gc)
      ∷ (1001, sys_rawq)
      ∷ (1002, sys_userdata system.around)
      ∷ (1007, sys_set_limit)
      ∷ (1009, sys_get_limit)
      ∷ (1008, sys_wordsize)
      ∷ (1022, sys_set_ticker)
      ∷ (1016, sys_getenv system.around)
      ∷ (1017, sys_system system.around)
      ∷ (1117, sys_memory_stats)
      ∷ (174, sys_dlopen system.linker)
      ∷ (176, sys_dlclose system.linker)
      ∷ (177, sys_dlsym system.linker)
      ∷ (178, sys_dlerror system.linker)
      ∷ (85, sys_mkcb system.linker)
      ∷ (157, sys_prctl system.os gc)
      ∷ (158, always)
      ∷ (1201, never)
      ∷ []

  unfoldable pub calls : CallTable
  unfolding sandbox_calls file_calls network_calls process_calls internal_calls
  calls = sandbox_calls ++ file_calls ++ network_calls ++ process_calls ++ internal_calls

  -- `switch (op + sandboxp)`
  unfoldable pub syscall : Vm → Outcome
  unfolding choose calls uvtoi
  syscall s = choose calls (uvtoi (arg s 0) + s.sandboxp) s
