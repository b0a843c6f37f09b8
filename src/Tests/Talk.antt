-- ===== src/Tests/Talk.antt =====
-- A call of `OL_tb_eval` at a concrete order of the steps.
use ol.Common.{◌≡◌, ◌⊎◌, refl, [], ◌∷◌}
use ol.Talkback.{
  State, returned, running, call_step, calls, answers, reads, notifies, waits, Steps, here, onwards,
}
use ol.Talkback.Lost.{idle}
use ol.Talkback.Answers.{Given, eval-Given}

-- an old answer stands in `ok`
abbrev start : State
start = record idle { ok = 5 }

abbrev end : State
end = record idle { ok = 7; caller = returned 7; machine = running }

-- the request is answered once `ok` is cleared
answered : Steps start (7 ∷ []) end
unfolding call_step
answered =
    let cleared = onwards (onwards (onwards here calls) calls) calls in
    let told =
      onwards (onwards (onwards cleared (reads 0 refl refl)) (answers 7 refl))
        (notifies refl (λ holds. holds)) in
    onwards (onwards (onwards (onwards (onwards told (waits refl)) calls) calls) calls) calls

eval_example : (end.ok ≡ 0) ⊎ Given end.ok (7 ∷ [])
eval_example = eval-Given start end (7 ∷ []) 7 answered refl refl
