-- ===== src/Tests/Records.antt =====
-- Evidence folded into one record.
use mathlib.Core.List.{Memᴰ, Permᴰ}
use atelier_code.Shared.{
  String, true, false, ◌≡◌, refl, ◌⊎◌, ◌≢◌, ◌≤◌, arith, some, List, [], ◌∷◌, ◌++◌, String-ne,
}
use atelier_code.Threads.Record.{ThreadStatus, TurnState, ThreadRecord, ended}
use atelier_code.Threads.Turns.{TurnObservation, apply_turn, reported_state}
use atelier_code.Threads.Rank.{rank, rank_from, stronger, weight, recognise}
use atelier_code.Threads.Rank.Order.{rank-perm, rank-strongest, rank-idle}
use atelier_code.Threads.Evidence.{apply_status, coerce_record, mint_pending}
use atelier_code.Threads.Evidence.Consistent.{
  IsSound, IsSettled, IsUnobserved, IsCoerced, apply_status-IsSettled, coerce_record-IsUnobserved,
}
use atelier_code.Threads.Evidence.Frame.{OnlyEvidence, apply_status-OnlyEvidence}
use atelier_code.Threads.Evidence.Submission.{
  Evidence, observe_all, IsTurnOf, observe_all-pending, apply_turn-ended,
}
use atelier_code.Tests.Samples.{working_thread, ended_turn, turn_report, submission}

working_thread-IsSound : IsSound working_thread
unfolding ended
working_thread-IsSound = record {
  detail = λ n. refl;
  turn = record {
    reported = λ e. ground arith;
    end_time = refl;
    failure = λ n. refl;
    answer = λ e. refl;
  };
}

abbrev faulted : ThreadRecord
faulted =
    (apply_status working_thread ThreadStatus.error "lost"
      (some (turn_report "q2" TurnState.running)) 9 "t2" true).0

apply_status-IsSettled_example : IsSettled (some (turn_report "q2" TurnState.running)) faulted
apply_status-IsSettled_example =
    apply_status-IsSettled working_thread ThreadStatus.error "lost"
      (some (turn_report "q2" TurnState.running)) 9 "t2" true working_thread-IsSound

apply_status-OnlyEvidence_example : OnlyEvidence working_thread faulted
apply_status-OnlyEvidence_example =
    apply_status-OnlyEvidence working_thread ThreadStatus.error "lost"
      (some (turn_report "q2" TurnState.running)) 9 "t2" true

coerce_record-IsUnobserved_example :
    let (q, changed) = coerce_record working_thread in
    IsCoerced working_thread q
    × IsUnobserved q
    × (changed ≡ true → q ≢ working_thread)
    × (changed ≡ false → q ≡ working_thread)
    × (IsUnobserved working_thread → coerce_record working_thread ≡ (working_thread, false))
coerce_record-IsUnobserved_example =
    coerce_record-IsUnobserved working_thread working_thread-IsSound

abbrev waiting_thread : ThreadRecord
waiting_thread = record working_thread { pending = some submission }

abbrev report : String → TurnState → Evidence
report provider state = record {
  status = ThreadStatus.working;
  detail = "";
  turn = some (turn_report provider state);
  at = 9;
  fresh = "t9";
  active = true;
}

-- The turn held at submission ends first, then the submitted one runs.
abbrev reports : List Evidence
reports = report "q1" TurnState.completed ∷ report "q2" TurnState.running ∷ []

observe_all-pending_example :
    ((observe_all waiting_thread reports).pending ≡ some submission)
    ⊎ ((before : List Evidence) × (after : List Evidence) × (reports ≡ before ++ after)
        × IsTurnOf submission (observe_all waiting_thread before))
observe_all-pending_example = observe_all-pending waiting_thread submission reports refl

abbrev submitted_thread : ThreadRecord
submitted_thread =
    (apply_turn (mint_pending working_thread 8 "s1") (turn_report "q2" TurnState.running) 9 "t9").0

abbrev submitted_id : String
submitted_id = "s1"

abbrev second_report : TurnObservation
second_report = turn_report "q2" TurnState.running

abbrev finished_thread : ThreadRecord
finished_thread = record working_thread { turn = some ended_turn }

abbrev late_report : TurnObservation
late_report = record (turn_report "q1" TurnState.completed) { response = "hello" }

apply_turn-ended_example :
    (x : String) × ((apply_turn finished_thread late_report 9 "t9").0
      ≡ record finished_thread { turn = some (record ended_turn { response = x }) })
    × ((x ≡ ended_turn.response)
        ⊎ ((x ≡ late_report.response) × (ended (reported_state late_report.state) ≡ true)))
unfolding ended
apply_turn-ended_example =
    apply_turn-ended finished_thread ended_turn late_report 9 "t9" refl refl refl
      (String-ne "q1" "" refl) tt

abbrev two_statuses : List ThreadStatus
two_statuses = ThreadStatus.working ∷ ThreadStatus.other "novel" ∷ []

rank-strongest_example :
    ((two_statuses ≡ []) × (rank two_statuses ≡ ThreadStatus.unknown))
    ⊎ (((s : ThreadStatus) × Memᴰ s two_statuses × (rank two_statuses ≡ recognise s))
        × ((s : ThreadStatus)
            → Memᴰ s two_statuses
            → weight (recognise s) ≤ weight (rank two_statuses)))
rank-strongest_example = rank-strongest two_statuses

abbrev at_rest : List ThreadStatus
at_rest = ThreadStatus.idle ∷ ThreadStatus.idle ∷ []

rank-idle_example : (at_rest ≢ []) × ((s : ThreadStatus) → Memᴰ s at_rest → s ≡ ThreadStatus.idle)
unfolding rank rank_from stronger
rank-idle_example = rank-idle at_rest refl

abbrev two_reversed : List ThreadStatus
two_reversed = ThreadStatus.other "novel" ∷ ThreadStatus.working ∷ []

rank-perm_example : rank two_statuses ≡ rank two_reversed
rank-perm_example = rank-perm two_statuses two_reversed ∣ Permᴰ.swap refl refl ∣₁
