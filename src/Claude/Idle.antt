-- ===== src/Claude/Idle.antt =====
-- internal/integrations/claude/tracker.go: when a session counts as idle.
use mathlib.Core.List.{Memᴰ}
use atelier_code.Shared.{
  String, true, ◌≡◌, refl, sym, subst, ap, ◌∙◌, ◌↔◌, ◌≢◌, Option, none, some, List, [], ◌∷◌, arith,
  ite, String-discrete, if-cases, is_empty, OnSome, differ, if◌then◌else◌,
}
use atelier_code.Finite.{lookup, insert, erase}
use atelier_code.Threads.Record.{
  ThreadStatus, unclaimed, unknown, idle, working, waiting_for_input, waiting_for_permission, error,
  other, is_live,
}
use atelier_code.Threads.Rank.{rank, rank_from, stronger, weight, recognise, ranks}
use atelier_code.Threads.Rank.Order.{rank-idle}
use atelier_code.Claude.{
  Payload, HookEvent, Notice, Tracker, members, aggregate, retained, is_waiting, snapshot,
  take_snapshot, set_member, set_permission, member_or_empty, fold_notice, fold_event, apply,
  apply_all, Folded,
}

-- Every member works or waits on the user.
abbrev AreLive : List (String × ThreadStatus) → Type 0
AreLive [] = Unit
AreLive ((id, s) ∷ m) = (is_live s ≡ true) × AreLive m

AreLive-insert :
    (id : String) (s : ThreadStatus) (m : List (String × ThreadStatus))
    → is_live s ≡ true
    → AreLive m
    → AreLive (insert String-discrete id s m)
unfolding insert
AreLive-insert id s [] h a = (h, tt)
AreLive-insert id s ((j, r) ∷ m) h a =
    elim (String-discrete j id)
      as (λ d. AreLive (ite d ((id, s) ∷ m) ((j, r) ∷ insert String-discrete id s m))) [
        | yes e ↦ (h, a.1)
        | no n ↦ (a.0, AreLive-insert id s m h a.1)
      ]

AreLive-erase :
    (id : String) (m : List (String × ThreadStatus))
    → AreLive m
    → AreLive (erase String-discrete id m)
unfolding erase
AreLive-erase id [] a = tt
AreLive-erase id ((j, r) ∷ m) a =
    elim (String-discrete j id)
      as (λ d. AreLive (ite d (erase String-discrete id m) ((j, r) ∷ erase String-discrete id m))) [
        | yes e ↦ AreLive-erase id m a.1
        | no n ↦ (a.0, AreLive-erase id m a.1)
      ]

AreLive-lookup :
    (id : String) (m : List (String × ThreadStatus))
    → AreLive m
    → OnSome (λ s. is_live s ≡ true) (lookup String-discrete id m)
unfolding lookup
AreLive-lookup id [] a = tt
AreLive-lookup id ((j, r) ∷ m) a =
    elim (String-discrete j id)
      as (λ d. OnSome (λ s. is_live s ≡ true) (ite d (some r) (lookup String-discrete id m))) [
        | yes e ↦ a.0
        | no n ↦ AreLive-lookup id m a.1
      ]

retained-live :
    (o : Option ThreadStatus) → OnSome (λ s. is_live s ≡ true) o → is_live (retained o) ≡ true
unfolding is_live
retained-live none h = refl
retained-live (some s) h = if-cases (λ r. is_live r ≡ true) (is_waiting s) (λ e. h) (λ e. refl)

permission-live :
    (o : Option ThreadStatus)
    → OnSome (λ s. is_live s ≡ true) o
    → is_live (rank (member_or_empty o ∷ waiting_for_permission ∷ [])) ≡ true
unfolding is_live rank rank_from stronger weight recognise ranks
permission-live none h = refl
permission-live (some working) h = refl
permission-live (some waiting_for_input) h = refl
permission-live (some waiting_for_permission) h = refl
permission-live (some unclaimed) h = absurd (ground (arith, h))
permission-live (some unknown) h = absurd (ground (arith, h))
permission-live (some idle) h = absurd (ground (arith, h))
permission-live (some error) h = absurd (ground (arith, h))
permission-live (some (other s)) h = absurd (ground (arith, h))

snapshot-AreLive :
    (old : List (String × ThreadStatus)) (ids : List String) (new : List (String × ThreadStatus))
    → AreLive old
    → AreLive new
    → AreLive (snapshot old ids new)
unfolding snapshot
snapshot-AreLive old [] new a b = b
snapshot-AreLive old (id ∷ ids) new a b = snapshot-AreLive old ids _ a (
    if-cases AreLive (is_empty id) (λ e. b)
      (λ e. AreLive-insert id _ new (retained-live _ (AreLive-lookup id old a)) b))

take_snapshot-AreLive :
    (o : Option (List String)) (t : Tracker)
    → AreLive t.background
    → AreLive (take_snapshot o t).background
unfolding take_snapshot
take_snapshot-AreLive none t a = a
take_snapshot-AreLive (some ids) t a = snapshot-AreLive t.background ids [] a tt

module _ (p : Payload) (t : Tracker) (a : AreLive t.background) where
  set_member-AreLive : (s : ThreadStatus) → is_live s ≡ true → AreLive (set_member p s t).background
  unfolding set_member
  set_member-AreLive s h =
      if-cases (λ (u : Tracker). AreLive u.background) (is_empty p.agent_id) (λ e. a)
        (λ e. AreLive-insert p.agent_id s t.background h a)

  set_permission-AreLive : AreLive (set_permission p t).background
  unfolding set_permission
  set_permission-AreLive =
      if-cases (λ (u : Tracker). AreLive u.background) (is_empty p.agent_id) (λ e. a)
        (λ e.
          AreLive-insert p.agent_id _ t.background
            (permission-live _ (AreLive-lookup p.agent_id t.background a)) a)

  fold_notice-AreLive : (n : Notice) → AreLive (fold_notice p n t).tracker.background
  unfolding fold_notice is_live
  fold_notice-AreLive Notice.idle_prompt =
      if-cases (λ (f : Folded). AreLive f.tracker.background) (is_empty p.agent_id) (λ e. a)
        (λ e. a)
  fold_notice-AreLive Notice.permission_prompt = set_permission-AreLive
  fold_notice-AreLive Notice.elicitation_dialog = set_member-AreLive waiting_for_input refl
  fold_notice-AreLive Notice.agent_needs_input = set_member-AreLive waiting_for_input refl
  fold_notice-AreLive Notice.other = a

  inserted-AreLive :
      (id : String)
      → AreLive
          (if is_empty id then t else record t {
            background = insert String-discrete id working t.background;
          }).background
  unfolding is_live
  inserted-AreLive id =
      if-cases (λ (u : Tracker). AreLive u.background) (is_empty id) (λ e. a)
        (λ e. AreLive-insert id working t.background refl a)

  fold_event-AreLive : (n : HookEvent) → AreLive (fold_event p n t).tracker.background
  unfolding fold_event is_live
  fold_event-AreLive HookEvent.user_prompt_submit = set_member-AreLive working refl
  fold_event-AreLive HookEvent.pre_tool_use = set_member-AreLive working refl
  fold_event-AreLive HookEvent.post_tool_use = set_member-AreLive working refl
  fold_event-AreLive HookEvent.post_tool_use_failure = set_member-AreLive working refl
  fold_event-AreLive HookEvent.permission_denied = set_member-AreLive working refl
  fold_event-AreLive HookEvent.stop =
      if-cases (λ (f : Folded). AreLive f.tracker.background) (is_empty p.agent_id) (λ e. a)
        (λ e. a)
  fold_event-AreLive HookEvent.stop_failure =
      if-cases (λ (f : Folded). AreLive f.tracker.background) (is_empty p.agent_id) (λ e. a)
        (λ e. a)
  fold_event-AreLive HookEvent.subagent_start = inserted-AreLive p.agent_id
  fold_event-AreLive HookEvent.subagent_stop = AreLive-erase p.agent_id t.background a
  fold_event-AreLive HookEvent.task_created = inserted-AreLive p.task_id
  fold_event-AreLive HookEvent.task_completed = AreLive-erase p.task_id t.background a
  fold_event-AreLive HookEvent.permission_request =
      if-cases (λ (u : Tracker). AreLive u.background)
        (differ String-discrete p.tool_name "AskUserQuestion") (λ e. set_permission-AreLive)
        (λ e. set_member-AreLive waiting_for_input refl)
  fold_event-AreLive HookEvent.notification = fold_notice-AreLive p.notice
  fold_event-AreLive HookEvent.other = a

apply_all-AreLive :
    (ps : List Payload) (t : Tracker) → AreLive t.background → AreLive (apply_all ps t).background
unfolding apply_all apply
apply_all-AreLive [] t a = a
apply_all-AreLive (p ∷ ps) t a =
    apply_all-AreLive ps _
      (fold_event-AreLive p _ (take_snapshot-AreLive p.background_tasks t a) p.event)

live-idle : (s : ThreadStatus) → is_live s ≡ true → s ≢ idle
unfolding is_live
live-idle s h e = absurd (ground (arith, h, ap is_live e))

no_members :
    (m : List (String × ThreadStatus))
    → AreLive m
    → ((s : ThreadStatus) → Memᴰ s (members m) → s ≡ idle)
    → m ≡ []
unfolding members
no_members [] a f = refl
no_members ((id, s) ∷ m) a f = absurd (live-idle s a.0 (f s (Memᴰ.head refl)))

idle-alone :
    (t : Tracker)
    → AreLive t.background
    → (aggregate t ≡ idle) ↔ ((t.root ≡ idle) × (t.background ≡ []))
unfolding aggregate members rank rank_from stronger weight recognise ranks
idle-alone t a = (
  λ e.
      let (full, all) = rank-idle (t.root ∷ members t.background) e in
      (all t.root (Memᴰ.head refl), no_members t.background a (λ s m. all s (Memᴰ.tail m))),
  λ (e, f).
      ap (λ (s : ThreadStatus). rank (s ∷ members t.background)) e
      ∙ ap (λ m. rank (idle ∷ members m)) f
      ∙ alone,
)
  where
    alone : rank (idle ∷ members []) ≡ idle
    alone = refl

-- After any hook payloads on a tracker that starts without background work, the session counts as
-- idle exactly if its root is idle and no background work is left.
pub apply_all-idle :
    (ps : List Payload) (t : Tracker)
    → t.background ≡ []
    → let u = apply_all ps t in (aggregate u ≡ idle) ↔ ((u.root ≡ idle) × (u.background ≡ []))
apply_all-idle ps t e =
    idle-alone (apply_all ps t) (apply_all-AreLive ps t (subst AreLive (sym e) tt))
