-- ===== src/Tests/Sessions.antt =====
-- A Claude Code session whose turn ends while a subagent works.
use atelier_code.Shared.{String, ◌≡◌, ◌↔◌, refl, none, List, [], ◌∷◌}
use atelier_code.Threads.Record.{idle}
use atelier_code.Claude.{Payload, HookEvent, Notice, new_tracker, aggregate, apply_all}
use atelier_code.Claude.Idle.{apply_all-idle}

abbrev hook : HookEvent → String → Payload
hook event agent = record {
  event = event;
  agent_id = agent;
  task_id = "";
  background_tasks = none;
  notice = Notice.other;
  tool_name = "";
  error = "";
  error_details = "";
  last_assistant_message = "";
}

abbrev subagent_outlives : List Payload
subagent_outlives =
    hook HookEvent.user_prompt_submit ""
    ∷ hook HookEvent.subagent_start "a1"
    ∷ hook HookEvent.stop ""
    ∷ hook HookEvent.subagent_stop "a1"
    ∷ []

apply_all-idle_example :
    let u = apply_all subagent_outlives new_tracker in
    (aggregate u ≡ idle) ↔ ((u.root ≡ idle) × (u.background ≡ []))
apply_all-idle_example = apply_all-idle subagent_outlives new_tracker refl
