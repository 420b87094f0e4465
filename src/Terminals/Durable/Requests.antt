-- ===== src/Terminals/Durable/Requests.antt =====
-- internal/terminals/service.go: a recorded exit, under Update and Delete.
use atelier_code.Shared.{ℕ, String, Bool, not, ◌≢◌, Option, if-cases, option-cases, String-discrete}
use atelier_code.Finite.{lookup}
use atelier_code.Terminals.State.{Service, Terminal, Texts, Result, Error, has, result-cases}
use atelier_code.Terminals.Requests.{
  World, Patch, absent, null, value, update, patch_entry, write_changes, write_patch, renamed,
  patched_name, patched_space, record_stop, remove_record,
}
use atelier_code.Terminals.Durable.{exit_of, exit_in, IsDurable, erase_keeps, replace_keeps}

module _ (id : String) (x : ℕ × Option ℕ) where
  pub record_stop-IsDurable :
      (w : World) (k : String) (s : Service)
      → IsDurable id x s
      → IsDurable id x (record_stop w k s).0
  unfolding record_stop
  record_stop-IsDurable w k s d =
      if-cases P w.refuses (λ e. d)
        (λ e.
          option-cases P (lookup String-discrete k s.rows) (λ f. d)
            (λ r f.
              option-cases P (lookup String-discrete k s.view)
                (λ g. (d.0, replace_keeps exit_of id x k r _ s.rows f (λ h. h) d.1))
                (λ q g. (
                  replace_keeps exit_in id x k q _ s.view g (λ h. h) d.0,
                  replace_keeps exit_of id x k r _ s.rows f (λ h. h) d.1,
                ))))
    where
      P : Service × Option Error → Type 0
      P y = IsDurable id x y.0

  pub remove_record-IsDurable :
      (w : World) (k : String) (s : Service)
      → k ≢ id
      → IsDurable id x s
      → IsDurable id x (remove_record w k s).0
  unfolding remove_record
  remove_record-IsDurable w k s n d =
      if-cases (λ (y : Service × Result Bool). IsDurable id x y.0) w.refuses (λ e. d)
        (λ e.
          if-cases (λ (y : Service × Result Bool). IsDurable id x y.0) (has k s.rows)
            (λ f.
              (erase_keeps exit_in id x k s.view n d.0, erase_keeps exit_of id x k s.rows n d.1))
            (λ f. d))

  abbrev Answers : Service × Result Terminal → Type 0
  Answers y = IsDurable id x y.0

  write_patch-IsDurable :
      (w : World) (k name space : String) (s : Service)
      → IsDurable id x s
      → Answers (write_patch w k name space s)
  unfolding write_patch
  write_patch-IsDurable w k name space s d =
      if-cases Answers w.refuses (λ e. d)
        (λ e.
          option-cases Answers (lookup String-discrete k s.rows) (λ f. d)
            (λ r f.
              let stored =
                replace_keeps exit_of id x k r (renamed name space w.now r) s.rows f (λ h. h) d.1 in
              if-cases Answers (not (has space s.space_rows)) (λ g. d)
                (λ g.
                  option-cases Answers (lookup String-discrete k s.view) (λ h. (d.0, stored))
                    (λ q h. (replace_keeps exit_in id x k q _ s.view h (λ h. h) d.0, stored)))))

  patch_entry-IsDurable :
      (w : World) (texts : Texts) (k : String) (name space : Patch) (s : Service)
      → IsDurable id x s
      → Answers (patch_entry w texts k name space s)
  unfolding patch_entry write_changes
  patch_entry-IsDurable w texts k name space s d =
      option-cases Answers (lookup String-discrete k s.view) (λ e. d)
        (λ q e.
          result-cases Answers (patched_name texts name q.record_of.name) (λ f h. d)
            (λ new_name h.
              result-cases Answers (patched_space space q.record_of.space_id s) (λ f h. d)
                (λ new_space h.
                  if-cases Answers _ (λ g. write_patch-IsDurable w k new_name new_space s d)
                    (λ g. d))))

  pub update-IsDurable :
      (w : World) (texts : Texts) (k : String) (name space : Patch) (s : Service)
      → IsDurable id x s
      → Answers (update w texts k name space s)
  unfolding update
  update-IsDurable w texts k absent null s d = d
  update-IsDurable w texts k null null s d = d
  update-IsDurable w texts k (value v) null s d = d
  update-IsDurable w texts k absent absent s d = d
  update-IsDurable w texts k null absent s d = patch_entry-IsDurable w texts k null absent s d
  update-IsDurable w texts k (value v) absent s d =
      patch_entry-IsDurable w texts k (value v) absent s d
  update-IsDurable w texts k absent (value u) s d =
      patch_entry-IsDurable w texts k absent (value u) s d
  update-IsDurable w texts k null (value u) s d = patch_entry-IsDurable w texts k null (value u) s d
  update-IsDurable w texts k (value v) (value u) s d =
      patch_entry-IsDurable w texts k (value v) (value u) s d
