-- ===== src/Talkback.antt =====
-- The call `OL_tb_eval`, with a format, of extensions/talkback/talkback.c and the answers of the machine, which runs in
-- a thread of its own. The steps of the two threads interleave; `wakeup` and the way into a `pthread_cond_wait` are one
-- step each, since the mutex makes them so, and a signal reaches a thread that waits, or none. Writes of `ok` and
-- `error` take no mutex.
pub mod Answers
pub mod Lost
use ol.Common.{if◌then◌else◌, ◌==◌, ◌++◌, ℕ, zero, suc, List, [], ◌∷◌, ◌≡◌, ◌≢◌}

-- where the caller of `OL_tb_eval` stands. In `test_ok` and `before_wait` it holds `me_mutex`; `leaving` is behind
-- the mutex, where `ok` is read once more.
pub data Caller : Type 0 where
  entered : Caller
  sending : Caller
  clearing : Caller
  waking : Caller
  test_error : Caller
  test_ok : Caller
  before_wait : Caller
  sleeping : Caller
  woken : Caller
  leaving : Caller
  returned : ℕ → Caller

-- where the thread of the machine stands: it runs, it has written an answer or an error and is about to wake the caller,
-- it is about to wait, or it waits for the caller to process the answer
pub data VmThread : Type 0 where
  running : VmThread
  written : VmThread
  notified : VmThread
  waiting : VmThread

-- `state_t`, with the requests in the pipe that the machine has not read
pub record State : Type 0 where
  pub ok : ℕ
  pub error : ℕ
  pub requests : ℕ
  pub caller : Caller
  pub machine : VmThread

-- `wakeup(me)`, `wakeup(olvm)`
abbrev pub signal_me : Caller → Caller
signal_me sleeping = woken
signal_me c = c

abbrev pub signal_olvm : VmThread → VmThread
signal_olvm waiting = running
signal_olvm m = m

abbrev pub HoldsMutex : Caller → Type 0
HoldsMutex test_ok = Unit
HoldsMutex before_wait = Unit
HoldsMutex c = ⊥

-- one step of the caller
unfoldable pub call_step : State → State
call_step s = elim (s.caller) [
  | entered ↦ record s { caller = if s.error == 0 then sending else returned 0 }
  | sending ↦ record s { caller = clearing; requests = suc (s.requests) }
  | clearing ↦ record s { caller = waking; ok = 0 }
  | waking ↦ record s { caller = test_error; machine = signal_olvm (s.machine) }
  | test_error ↦ record s { caller = if s.error == 0 then test_ok else returned 0 }
  | test_ok ↦ record s { caller = if s.ok == 0 then before_wait else leaving }
  | before_wait ↦ record s { caller = sleeping }
  | sleeping ↦ s
  | woken ↦ record s { caller = if s.error == 0 then leaving else returned 0 }
  | leaving ↦ record s { caller = returned (s.ok) }
  | returned r ↦ s
]

-- A step of either thread, with the answer that the machine gives in it. A wait may also end without a signal.
pub data Step : State → List ℕ → State → Type 0 where
  calls : {s : State} → Step s [] (call_step s)
  answers :
      {s : State}
      → (a : ℕ) → s.machine ≡ running
      → Step s (a ∷ []) (record s { machine = written; ok = a })
  fails :
      {s : State}
      → (e : ℕ) → s.machine ≡ running
      → Step s [] (record s { machine = written; error = e })
  reads :
      {s : State}
      → (n : ℕ) → s.machine ≡ running
      → s.requests ≡ suc n
      → Step s [] (record s { requests = n })
  notifies :
      {s : State}
      → s.machine ≡ written
      → ¬ HoldsMutex (s.caller)
      → Step s [] (record s { machine = notified; caller = signal_me (s.caller) })
  waits : {s : State} → s.machine ≡ notified → Step s [] (record s { machine = waiting })
  spurious_me : {s : State} → s.caller ≡ sleeping → Step s [] (record s { caller = woken })
  spurious_olvm : {s : State} → s.machine ≡ waiting → Step s [] (record s { machine = running })

-- any number of steps, with the answers of all of them
pub data Steps : State → List ℕ → State → Type 0 where
  here : {s : State} → Steps s [] s
  onwards : {s t u : State} {xs ys : List ℕ} → Steps s xs t → Step t ys u → Steps s (ys ++ xs) u
