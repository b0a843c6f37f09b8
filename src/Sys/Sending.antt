-- ===== src/Sys/Sending.antt =====
-- The loop of the system call `sendfile` (src/olvm.c).
use ol.Common.{
  if◌then◌else◌, subst, ◌<◌, leb→le, sym, leb, ℕ, zero, suc, ◌+◌, ◌-◌, ◌≤◌, ◌≡◌, refl, ◌∙◌, ap,
  true, false, Bool, some, ℤ, pos, negsuc, arith, Bool-cases, inl, inr,
}
use ol.Word.{is_port}
use ol.Word.Sign.{svtoi}
use ol.Machine.{Vm, arg}
use ol.Word.Types.{itrue, ifalse}
use ol.Sys.{int_of, answer}
use ol.Sys.Files.{FileSystem, send_loop, sys_sendfile, descriptor}

-- the result of a call of `sendfile`, its round, and the bytes that are left
abbrev Sender : Type 0
Sender = ℕ → ℕ → ℤ × Bool

-- Rounds of `sendfile` until the loop ends, and whether its last call has not failed: nothing is left, nothing was
-- sent, the call failed for another reason, some bytes were sent, or the system asks to try again.
pub data Sends (send : Sender) : ℕ → ℕ → Bool → Type 0 where
  all_sent : (round : ℕ) → Sends send round 0 true
  nothing_sent : (round n : ℕ) → (send round (suc n)).0 ≡ pos 0 → Sends send round (suc n) true
  failed :
      (round n err : ℕ)
      → (send round (suc n)).0 ≡ negsuc err
      → (send round (suc n)).1 ≡ false
      → Sends send round (suc n) false
  some_sent :
      (round n k : ℕ) (b : Bool)
      → (send round (suc n)).0 ≡ pos (suc k)
      → Sends send (round + 1) (suc n - suc k) b
      → Sends send round (suc n) b
  try_again :
      (round n err : ℕ) (b : Bool)
      → (send round (suc n)).0 ≡ negsuc err
      → (send round (suc n)).1 ≡ true
      → Sends send (round + 1) (suc n) b
      → Sends send round (suc n) b

abbrev Ends : ℕ → Sender → ℕ → ℕ → Type 0
Ends fuel send round n = (b : Bool) × (send_loop fuel send round n ≡ some b) × Sends send round n b

-- one round, by what the call gives
send_round :
    (fuel : ℕ) (send : Sender) (round n : ℕ) (wrote : ℤ) (again : Bool)
    → send round (suc n) ≡ (wrote, again)
    → ((k : ℕ) → Ends fuel send (round + 1) (n - k))
    → (again ≡ true → Ends fuel send (round + 1) (suc n))
    → Ends (suc fuel) send round (suc n)
unfolding send_loop
send_round fuel send round n (pos zero) again e less same =
    (true, rw (send_loop, e), nothing_sent round n (ap (λ (r : ℤ × Bool). r.0) e))
send_round fuel send round n (pos (suc k)) again e less same =
    let (b, ends, sends) = less k in
    let left : n - k ≡ suc n - suc k = omega arith in
    (
      b,
      rw (send_loop, e) ends,
      some_sent round n k b (ap (λ (r : ℤ × Bool). r.0) e)
          (subst (λ (m : ℕ). Sends send (round + 1) m b) left sends),
    )
send_round fuel send round n (negsuc err) false e less same =
    let wrote = ap (λ (r : ℤ × Bool). r.0) e in
    let again = ap (λ (r : ℤ × Bool). r.1) e in
    (false, rw (send_loop, wrote, again), failed round n err wrote again)
send_round fuel send round n (negsuc err) true e less same =
    let (b, ends, sends) = same refl in
    let wrote = ap (λ (r : ℤ × Bool). r.0) e in
    let again = ap (λ (r : ℤ × Bool). r.1) e in
    (b, rw (send_loop, wrote, again) ends, try_again round n err b wrote again sends)

-- Each round sends a byte at least, is one of the rounds in which the system asks to try again, or is the last.
send_loop-Ends :
    (fuel : ℕ) (send : Sender) (patience round n : ℕ)
    → ((k m : ℕ) → patience ≤ k → (send k m).1 ≡ false)
    → n + (patience - round) ≤ fuel
    → Ends fuel send round n
unfolding send_loop
send_loop-Ends fuel send patience round zero quiet enough = (true, refl, all_sent round)
send_loop-Ends zero send patience round (suc n) quiet enough = absurd (omega arith)
send_loop-Ends (suc fuel) send patience round (suc n) quiet enough =
    send_round fuel send round n (send round (suc n)).0 (send round (suc n)).1 refl
      (λ k. send_loop-Ends fuel send patience (round + 1) (n - k) quiet (omega arith))
      (λ again. elim (Bool-cases (leb patience round)) [
        | inl late ↦ let done = sym again ∙ quiet round (suc n) (leb→le patience round late) in cc
        | inr early ↦
            send_loop-Ends fuel send patience (round + 1) (suc n) quiet
              (let lt : round < patience = ground arith in omega arith)
      ])

-- (sendfile port file size), where the system asks to try again in no round from `patience` on: the calls come to an
-- end, and the answer is #true if the last of them has not failed, and #false if it has.
pub sys_sendfile_lem :
    (fs : FileSystem) (s : Vm) (size : ℕ)
    → is_port (arg s 1) ≡ true
    → is_port (arg s 2) ≡ true
    → int_of (svtoi (arg s 3)) ≡ pos size
    → ((k m : ℕ)
        → fs.patience ≤ k
        → (fs.sendfile (descriptor (arg s 1)) (descriptor (arg s 2)) k m).1 ≡ false)
    → (sent : Bool) × Sends (fs.sendfile (descriptor (arg s 1)) (descriptor (arg s 2))) 0 size sent
      × (sys_sendfile fs s ≡ answer s (if sent then itrue else ifalse) s)
unfolding sys_sendfile
sys_sendfile_lem fs s size from into asked quiet =
    let send = fs.sendfile (descriptor (arg s 1)) (descriptor (arg s 2)) in
    let (sent, ends, sends) =
      send_loop-Ends (size + fs.patience) send fs.patience 0 size quiet (omega arith) in
    (sent, sends, rw (sys_sendfile, from, into, asked, ends))
