-- ===== src/Terminals/Closed/Minting.antt =====
-- internal/terminals: the terminals of a space under the creation of one.
use atelier_code.Shared.{
  String, Bool, not, ◌≡◌, refl, sym, ap, ◌∙◌, ◌≢◌, List, [], ◌∷◌, if-cases, option-cases,
  if◌then◌else◌,
}
use atelier_code.Terminals.State.{
  Service, TerminalRecord, Texts, Result, done, failed, has, result-cases,
}
use atelier_code.Terminals.Requests.{World, live_space}
use atelier_code.Terminals.Create.{AppLaunch, composed, commit, mint, insert_row, install}
use atelier_code.Terminals.Closed.{
  Shrinks, same-Shrinks, space_at-insert, then-Shrinks, IsClosed, live_space-other,
}

module _ (space : String) where
  composed-space :
      (launch : AppLaunch) (r q : TerminalRecord)
      → composed launch r ≡ done q
      → q.space_id ≡ r.space_id
  composed-space launch r q =
      option-cases (λ (o : Result TerminalRecord). o ≡ done q → q.space_id ≡ r.space_id)
        launch.compose
        (λ e h. let same : r ≡ q = cc h in ap (λ (p : TerminalRecord). p.space_id) (sym same))
        (λ f e.
          result-cases (λ (o : Result TerminalRecord). o ≡ done q → q.space_id ≡ r.space_id)
            (f r.id r.directory) (λ g e h. absurd (cc h))
            (λ c e h.
              let same : record r { command = c } ≡ q = cc h in
              ap (λ (p : TerminalRecord). p.space_id) (sym same)))

  insert_row-Shrinks :
      (w : World) (r : TerminalRecord) (s : Service) → Shrinks space s (insert_row w r s).0
  unfolding insert_row
  insert_row-Shrinks w r s =
      if-cases (λ (y : Service × Result Bool). Shrinks space s y.0) w.refuses
        (λ e. same-Shrinks space s s refl refl refl)
        (λ e.
          if-cases (λ (y : Service × Result Bool). Shrinks space s y.0) (has r.id s.rows)
            (λ f. same-Shrinks space s s refl refl refl)
            (λ f.
              if-cases (λ (y : Service × Result Bool). Shrinks space s y.0)
                (not (has r.space_id s.space_rows)) (λ g. same-Shrinks space s s refl refl refl)
                (λ g. same-Shrinks space s _ refl refl refl)))

  -- What minting leaves: the terminals, and a record of the space that was asked for.
  abbrev Minted : Service → TerminalRecord → Service × Result TerminalRecord → Type 0
  Minted s r y =
      Shrinks space s y.0 × ((q : TerminalRecord) → y.1 ≡ done q → q.space_id ≡ r.space_id)

  insert_row-Minted :
      (w : World) (r q : TerminalRecord) (s : Service) (rest : Service × Result TerminalRecord)
      → q.space_id ≡ r.space_id
      → Minted s r rest
      → Minted s r (elim (insert_row w q s).1 [
        | failed e ↦ ((insert_row w q s).0, failed e)
        | done inserted ↦ if inserted then ((insert_row w q s).0, done q) else rest
      ])
  insert_row-Minted w r q s rest n m =
      let kept = insert_row-Shrinks w q s in
      result-cases (Minted s r) (insert_row w q s).1 (λ e f. (kept, λ p h. absurd (cc h)))
        (λ inserted f.
          if-cases (Minted s r) inserted
            (λ g. (
              kept,
              λ p h.
                  let equal : q ≡ p = cc h in
                  ap (λ (p : TerminalRecord). p.space_id) (sym equal) ∙ n,
            ))
            (λ g. m))

  mint-Minted :
      (w : World) (launch : AppLaunch) (r : TerminalRecord) (ids : List String) (s : Service)
      → Minted s r (mint w launch r ids s)
  unfolding mint
  mint-Minted w launch r [] s = (same-Shrinks space s s refl refl refl, λ q h. absurd (cc h))
  mint-Minted w launch r (k ∷ ks) s =
      if-cases (Minted s r) (has k s.view) (λ e. mint-Minted w launch r ks s)
        (λ e.
          result-cases (Minted s r) (composed launch (record r { id = k }))
            (λ f h. (same-Shrinks space s s refl refl refl, λ q g. absurd (cc g)))
            (λ q h.
              insert_row-Minted w r q s (mint w launch r ks s)
                (composed-space launch (record r { id = k }) q h) (mint-Minted w launch r ks s)))

  install-Shrinks :
      (texts : Texts) (r : TerminalRecord) (s : Service)
      → r.space_id ≢ space
      → Shrinks space s (install texts r s)
  unfolding install
  install-Shrinks texts r s n = record {
    view_kept = refl;
    mark_kept = λ h. h;
    fewer = λ j h. space_at-insert space r.id j _ s.view h (λ same g. absurd (n g));
  }

  pub commit-Shrinks :
      (w : World) (texts : Texts) (launch : AppLaunch) (r : TerminalRecord) (ids : List String)
      (s : Service)
      → IsClosed space s
      → Shrinks space s (commit w texts launch r ids s).0
  unfolding commit
  commit-Shrinks w texts launch r ids s c =
      result-cases (λ (y : Service × Result TerminalRecord). Shrinks space s y.0)
        (live_space r.space_id s) (λ e f. same-Shrinks space s s refl refl refl)
        (λ q f.
          let m = mint-Minted w launch r ids s in
          let (other, same) = live_space-other space r.space_id s q c f in
          result-cases (λ (y : Service × Result TerminalRecord). Shrinks space s y.0)
            (mint w launch r ids s).1 (λ e g. m.0)
            (λ p g.
              then-Shrinks space s (mint w launch r ids s).0 _ m.0
                (install-Shrinks texts p _ (λ h. other (sym (m.1 p g) ∙ h)))))
