-- ===== src/Talkback/Answers.antt =====
-- What `OL_tb_eval` returns (extensions/talkback/talkback.c).
use ol.Common.{
  ℕ, ◌≡◌, ◌⊎◌, inl, inr, refl, sym, subst, List, [], ◌∷◌, ◌++◌, ◌==◌, if◌then◌else◌, Bool, true,
  false,
}
use ol.Talkback.{
  State, Caller, entered, sending, clearing, waking, test_error, test_ok, before_wait, sleeping,
  woken, leaving, returned, call_step, signal_me, Step, calls, answers, fails, reads, notifies,
  waits, spurious_me, spurious_olvm, Steps, here, onwards,
}

-- one of the answers
abbrev pub Given : ℕ → List ℕ → Type 0
Given a [] = ⊥
Given a (x ∷ xs) = (a ≡ x) ⊎ Given a xs

-- no answer, or one of those
abbrev Fresh : ℕ → List ℕ → Type 0
Fresh a xs = (a ≡ 0) ⊎ Given a xs

-- Behind the place where `ok` is cleared it holds no old answer.
abbrev Clear : Caller → ℕ → List ℕ → Type 0
Clear entered ok xs = Unit
Clear sending ok xs = Unit
Clear clearing ok xs = Unit
Clear (returned r) ok xs = Fresh r xs
Clear c ok xs = Fresh ok xs

if-Clear :
    (b : Bool) (c d : Caller) (ok : ℕ) (xs : List ℕ)
    → Clear c ok xs
    → Clear d ok xs
    → Clear (if b then c else d) ok xs
if-Clear true c d ok xs p q = p
if-Clear false c d ok xs p q = q

call_step-Clear :
    (c : Caller) (s : State) (xs : List ℕ)
    → s.caller ≡ c
    → Clear c s.ok xs
    → Clear (call_step s).caller (call_step s).ok xs
unfolding call_step
call_step-Clear entered s xs e f =
    rw e (if-Clear (s.error == 0) sending (returned 0) s.ok xs tt (inl refl))
call_step-Clear sending s xs e f = rw e tt
call_step-Clear clearing s xs e f = rw e (inl refl)
call_step-Clear waking s xs e f = rw e f
call_step-Clear test_error s xs e f =
    rw e (if-Clear (s.error == 0) test_ok (returned 0) s.ok xs f (inl refl))
call_step-Clear test_ok s xs e f = rw e (if-Clear (s.ok == 0) before_wait leaving s.ok xs f f)
call_step-Clear before_wait s xs e f = rw e f
call_step-Clear sleeping s xs e f = rw e f
call_step-Clear woken s xs e f =
    rw e (if-Clear (s.error == 0) leaving (returned 0) s.ok xs f (inl refl))
call_step-Clear leaving s xs e f = rw e f
call_step-Clear (returned r) s xs e f = rw e f

signal_me-Clear : (c : Caller) (ok : ℕ) (xs : List ℕ) → Clear c ok xs → Clear (signal_me c) ok xs
signal_me-Clear sleeping ok xs f = f
signal_me-Clear entered ok xs f = f
signal_me-Clear sending ok xs f = f
signal_me-Clear clearing ok xs f = f
signal_me-Clear waking ok xs f = f
signal_me-Clear test_error ok xs f = f
signal_me-Clear test_ok ok xs f = f
signal_me-Clear before_wait ok xs f = f
signal_me-Clear woken ok xs f = f
signal_me-Clear leaving ok xs f = f
signal_me-Clear (returned r) ok xs f = f

Fresh-more : (r a : ℕ) (xs : List ℕ) → Fresh r xs → Fresh r (a ∷ xs)
Fresh-more r a xs (inl none) = inl none
Fresh-more r a xs (inr given) = inr (inr given)

-- a new answer
answer-Clear : (c : Caller) (ok a : ℕ) (xs : List ℕ) → Clear c ok xs → Clear c a (a ∷ xs)
answer-Clear entered ok a xs f = tt
answer-Clear sending ok a xs f = tt
answer-Clear clearing ok a xs f = tt
answer-Clear (returned r) ok a xs f = Fresh-more r a xs f
answer-Clear waking ok a xs f = inr (inl refl)
answer-Clear test_error ok a xs f = inr (inl refl)
answer-Clear test_ok ok a xs f = inr (inl refl)
answer-Clear before_wait ok a xs f = inr (inl refl)
answer-Clear sleeping ok a xs f = inr (inl refl)
answer-Clear woken ok a xs f = inr (inl refl)
answer-Clear leaving ok a xs f = inr (inl refl)

Step-Clear :
    {s t : State} {ys : List ℕ} (xs : List ℕ)
    → Step s ys t
    → Clear s.caller s.ok xs
    → Clear t.caller t.ok (ys ++ xs)
Step-Clear {s} xs calls f = call_step-Clear (s.caller) s xs refl f
Step-Clear {s} xs (answers a runs) f = answer-Clear (s.caller) s.ok a xs f
Step-Clear xs (fails e runs) f = f
Step-Clear xs (reads n runs some) f = f
Step-Clear {s} xs (notifies done free) f = signal_me-Clear (s.caller) s.ok xs f
Step-Clear xs (waits done) f = f
Step-Clear {s} xs (spurious_me sleeps) f = subst (λ c. Clear c s.ok xs) sleeps f
Step-Clear xs (spurious_olvm sleeps) f = f

Steps-Clear :
    {s t : State} {xs : List ℕ} → Steps s xs t → s.caller ≡ entered → Clear t.caller t.ok xs
Steps-Clear {s} here e = subst (λ c. Clear c s.ok []) (sym e) tt
Steps-Clear (onwards {xs = xs} before last) e = Step-Clear xs last (Steps-Clear before e)

-- However the steps of the two threads interleave, and whatever stood in `ok` before, what `OL_tb_eval` returns is 0
-- or an answer that the machine has given since the call.
pub eval-Given :
    (s t : State) (xs : List ℕ) (r : ℕ)
    → Steps s xs t
    → s.caller ≡ entered
    → t.caller ≡ returned r
    → (r ≡ 0) ⊎ Given r xs
eval-Given s t xs r steps enters ends = subst (λ c. Clear c t.ok xs) ends (Steps-Clear steps enters)
