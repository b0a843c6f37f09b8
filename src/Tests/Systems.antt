-- ===== src/Tests/Systems.antt =====
-- A system that the machine can run on.
use ol.Common.{[], true, false, none, some, pos}
use ol.Sys.Files.{FileSystem}
use ol.Sys.Network.{Network}
use ol.Sys.Processes.{Processes, parent}
use ol.Sys.Internal.{Surroundings}
use ol.Sys.Libraries.{Linker}
use ol.Sys.Calls.{System}
use ol.Tests.Calls.{reading}

abbrev pub files : FileSystem
files = record {
  open_file = λ h p mode. pos 3;
  creation = 576;
  is_file = λ fd. true;
  close = λ fd. true;
  fstat = λ fd. none;
  lstat = λ h p. none;
  stat = λ h p. none;
  unlink = λ h p. false;
  is_terminal = λ fd. false;
  sendfile = λ from into round size. (pos 1, false);
  patience = 0;
  opendir = λ h p. 0;
  readdir = λ dir. none;
  chdir = λ h p. true;
  pipe = some (3, 4);
}

abbrev network : Network
network = record {
  socket = none;
  inet_addr = λ h p. 0;
  host_by_name = λ h p. none;
  connect = λ fd address port. false;
  shutdown = λ fd how. false;
  bind = λ fd port. false;
  listen = λ fd backlog. false;
  accept = λ fd. pos 5;
  set_nonblocking = λ fd. true;
  select = λ fd sec usec. false;
  peer = λ fd. none;
}

abbrev processes : Processes
processes = record {
  nanosleep = λ sec nsec. none;
  native = λ s f args. (2, s);
  fork = parent;
  execve = λ h p args ports. 1;
  timeofday = some (1000, 5);
  time = 1000;
  strftime = λ h p room seconds. none;
  uname = some [];
  rlimit = λ resource. none;
  rusage = none;
  sysinfo = none;
  kill = λ pid signal. true;
}

abbrev around : Surroundings
around = record { userdata = 0; getenv = λ h p. none; system = λ h p. pos 0 }

abbrev pub linker : Linker
linker = record {
  dlopen = λ h p mode. 0;
  dlclose = λ module_of. true;
  dlsym = λ module_of h p. 0;
  dlerror = none;
  trampoline = λ c. 4096;
}

abbrev pub system : System
system = record {
  os = reading;
  files = files;
  network = network;
  processes = processes;
  around = around;
  linker = linker;
}
