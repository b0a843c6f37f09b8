-- ===== src/Talkback/Lost.antt =====
-- An answer that `OL_tb_eval` loses (extensions/talkback/talkback.c): `ok` is cleared behind the request.
use ol.Common.{ℕ, ◌≡◌, refl, [], ◌∷◌}
use ol.Talkback.{
  State, entered, sleeping, running, call_step, calls, answers, reads, notifies, waits, Steps, here,
  onwards,
}

-- a call of `OL_tb_eval` to a machine that has nothing to do
abbrev pub idle : State
idle = record { ok = 0; error = 0; requests = 0; caller = entered; machine = running }

-- Where the machine is faster than the caller, the request is read and answered before `ok` is cleared, and with no
-- signal more to come the caller waits for an answer to a request that the machine has done with.
pub Steps-lost :
    (a : ℕ)
    → (t : State) × Steps idle (a ∷ []) t
      × (t.caller ≡ sleeping)
      × (t.machine ≡ running)
      × (t.requests ≡ 0)
      × (t.ok ≡ 0)
unfolding call_step
Steps-lost a =
    let sent = onwards (onwards here calls) calls in
    let answered = onwards (onwards sent (reads 0 refl refl)) (answers a refl) in
    let told = onwards (onwards answered (notifies refl (λ holds. holds))) (waits refl) in
    let cleared = onwards told calls in
    let slept = onwards (onwards (onwards (onwards cleared calls) calls) calls) calls in
    (_, slept, refl, refl, refl, refl)
