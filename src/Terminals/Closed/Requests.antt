-- ===== src/Terminals/Closed/Requests.antt =====
-- internal/terminals: the terminals of a space under Update and Delete.
use atelier_code.Shared.{
  String, Bool, not, ◌||◌, ◌≡◌, refl, sym, ap, ◌∙◌, Option, some, if-cases, option-cases,
  String-discrete, differ,
}
use atelier_code.Finite.{lookup}
use atelier_code.Terminals.State.{
  Service, Entry, Terminal, Texts, Result, done, Error, has, result-cases,
}
use atelier_code.Terminals.Requests.{
  World, Patch, absent, null, value, update, patch_entry, write_changes, write_patch, live_space,
  patched_space, patched_name, record_stop, remove_record,
}
use atelier_code.Terminals.Closed.{
  Shrinks, same-Shrinks, space_at-erase, replaced-Shrinks, IsClosed, live_space-other,
}

module _ (space : String) where
  pub record_stop-Shrinks :
      (w : World) (k : String) (s : Service) → Shrinks space s (record_stop w k s).0
  unfolding record_stop
  record_stop-Shrinks w k s =
      if-cases (λ (y : Service × Option Error). Shrinks space s y.0) w.refuses
        (λ e. same-Shrinks space s s refl refl refl)
        (λ e.
          option-cases (λ (y : Service × Option Error). Shrinks space s y.0)
            (lookup String-discrete k s.rows) (λ f. same-Shrinks space s s refl refl refl)
            (λ r f.
              option-cases (λ (y : Service × Option Error). Shrinks space s y.0)
                (lookup String-discrete k s.view) (λ g. same-Shrinks space s _ refl refl refl)
                (λ q g. replaced-Shrinks space k q _ s _ g (λ h. h) refl refl refl)))

  pub remove_record-Shrinks :
      (w : World) (k : String) (s : Service) → Shrinks space s (remove_record w k s).0
  unfolding remove_record
  remove_record-Shrinks w k s =
      if-cases (λ (y : Service × Result Bool). Shrinks space s y.0) w.refuses
        (λ e. same-Shrinks space s s refl refl refl)
        (λ e.
          if-cases (λ (y : Service × Result Bool). Shrinks space s y.0) (has k s.rows)
            (λ f. record {
              view_kept = refl;
              mark_kept = λ h. h;
              fewer = λ j h. space_at-erase space k j s.view h;
            })
            (λ f. same-Shrinks space s s refl refl refl))

  patched_space-other :
      (p : Patch) (now : String) (s : Service) (new : String)
      → IsClosed space s
      → patched_space p now s ≡ done new
      → new ≡ space
      → now ≡ space
  unfolding patched_space
  patched_space-other absent now s new c = λ h g. let same : now ≡ new = cc h in same ∙ g
  patched_space-other null now s new c = λ h g. absurd (cc h)
  patched_space-other (value v) now s new c =
      if-cases (λ (o : Result String). o ≡ done new → new ≡ space → now ≡ space)
        (differ String-discrete v now)
        (λ e.
          result-cases (λ (o : Result String). o ≡ done new → new ≡ space → now ≡ space)
            (live_space now s) (λ f i h. absurd (cc h))
            (λ q i.
              result-cases (λ (o : Result String). o ≡ done new → new ≡ space → now ≡ space)
                (live_space v s) (λ f j h. absurd (cc h))
                (λ r j h g.
                  let (other, same) = live_space-other space v s r c j in
                  let made : r.id ≡ new = cc h in absurd (other (sym same ∙ made ∙ g)))))
        (λ e h g. let same : now ≡ new = cc h in same ∙ g)

  write_patch-Shrinks :
      (w : World) (k name new : String) (s : Service)
      → ((e : Entry)
          → lookup String-discrete k s.view ≡ some e
          → new ≡ space
          → e.record_of.space_id ≡ space)
      → Shrinks space s (write_patch w k name new s).0
  unfolding write_patch
  write_patch-Shrinks w k name new s stays =
      if-cases (λ (y : Service × Result Terminal). Shrinks space s y.0) w.refuses
        (λ e. same-Shrinks space s s refl refl refl)
        (λ e.
          option-cases (λ (y : Service × Result Terminal). Shrinks space s y.0)
            (lookup String-discrete k s.rows) (λ f. same-Shrinks space s s refl refl refl)
            (λ r f.
              if-cases (λ (y : Service × Result Terminal). Shrinks space s y.0)
                (not (has new s.space_rows)) (λ g. same-Shrinks space s s refl refl refl)
                (λ g.
                  option-cases (λ (y : Service × Result Terminal). Shrinks space s y.0)
                    (lookup String-discrete k s.view) (λ h. same-Shrinks space s _ refl refl refl)
                    (λ q h. replaced-Shrinks space k q _ s _ h (stays q h) refl refl refl))))

  patch_entry-Shrinks :
      (w : World) (texts : Texts) (k : String) (name p : Patch) (s : Service)
      → IsClosed space s
      → Shrinks space s (patch_entry w texts k name p s).0
  unfolding patch_entry write_changes
  patch_entry-Shrinks w texts k name p s c =
      option-cases (λ (y : Service × Result Terminal). Shrinks space s y.0)
        (lookup String-discrete k s.view) (λ e. same-Shrinks space s s refl refl refl)
        (λ q e.
          result-cases (λ (y : Service × Result Terminal). Shrinks space s y.0)
            (patched_name texts name q.record_of.name)
            (λ f h. same-Shrinks space s s refl refl refl)
            (λ new_name h.
              result-cases (λ (y : Service × Result Terminal). Shrinks space s y.0)
                (patched_space p q.record_of.space_id s)
                (λ f i. same-Shrinks space s s refl refl refl)
                (λ new i.
                  if-cases (λ (y : Service × Result Terminal). Shrinks space s y.0)
                    (differ String-discrete new_name q.record_of.name
                      || differ String-discrete new q.record_of.space_id)
                    (λ g. write_patch-Shrinks w k new_name new s (λ x l j.
                      let same : q ≡ x = cc (e, l) in
                      ap (λ (y : Entry). y.record_of.space_id) (sym same)
                      ∙ patched_space-other p q.record_of.space_id s new c i j))
                    (λ g. same-Shrinks space s s refl refl refl))))

  pub update-Shrinks :
      (w : World) (texts : Texts) (k : String) (name p : Patch) (s : Service)
      → IsClosed space s
      → Shrinks space s (update w texts k name p s).0
  unfolding update
  update-Shrinks w texts k absent null s c = same-Shrinks space s s refl refl refl
  update-Shrinks w texts k null null s c = same-Shrinks space s s refl refl refl
  update-Shrinks w texts k (value v) null s c = same-Shrinks space s s refl refl refl
  update-Shrinks w texts k absent absent s c = same-Shrinks space s s refl refl refl
  update-Shrinks w texts k null absent s c = patch_entry-Shrinks w texts k null absent s c
  update-Shrinks w texts k (value v) absent s c = patch_entry-Shrinks w texts k (value v) absent s c
  update-Shrinks w texts k absent (value u) s c = patch_entry-Shrinks w texts k absent (value u) s c
  update-Shrinks w texts k null (value u) s c = patch_entry-Shrinks w texts k null (value u) s c
  update-Shrinks w texts k (value v) (value u) s c =
      patch_entry-Shrinks w texts k (value v) (value u) s c
