-- ===== src/Terminals/Durable/Minting.antt =====
-- internal/terminals/service.go: a recorded exit, under the creation of a terminal.
use atelier_code.Shared.{
  ℕ, String, Bool, true, false, not, ◌≡◌, refl, sym, ap, ◌∙◌, ◌≢◌, Option, none, some, List, [],
  ◌∷◌, arith, if-cases, option-cases, is_some, if◌then◌else◌,
}
use atelier_code.Terminals.State.{
  Service, Entry, TerminalRecord, Texts, Result, done, failed, has, result-cases,
}
use atelier_code.Terminals.Requests.{World, live_space}
use atelier_code.Terminals.Create.{AppLaunch, composed, commit, mint, insert_row, install}
use atelier_code.Terminals.Durable.{at_key, exit_of, exit_in, IsShown, IsDurable, insert_keeps}

module _ (id : String) (x : ℕ × Option ℕ) where
  insert_row-IsDurable :
      (w : World) (r : TerminalRecord) (s : Service)
      → r.id ≢ id
      → IsDurable id x s
      → IsDurable id x (insert_row w r s).0
  unfolding insert_row
  insert_row-IsDurable w r s n d =
      if-cases P w.refuses (λ e. d)
        (λ e.
          if-cases P (has r.id s.rows) (λ f. d)
            (λ f.
              if-cases P (not (has r.space_id s.space_rows)) (λ g. d)
                (λ g.
                  (d.0, insert_keeps exit_of id x r.id r s.rows d.1 (λ same. absurd (n same))))))
    where
      P : Service × Result Bool → Type 0
      P y = IsDurable id x y.0

  shown_some : (o : Option Entry) → at_key exit_in o ≡ some x → is_some o ≡ true
  shown_some none h = absurd (ground (arith, h))
  shown_some (some e) h = refl

  shown-other : (k : String) (s : Service) → IsShown id x s → has k s.view ≡ false → k ≢ id
  shown-other k s d h same =
      let there : has id s.view ≡ true = shown_some _ d in
      absurd (ground (arith, there, h, ap (λ j. has j s.view) same))

  composed-id :
      (launch : AppLaunch) (r q : TerminalRecord) → composed launch r ≡ done q → q.id ≡ r.id
  composed-id launch r q =
      option-cases (λ (o : Result TerminalRecord). o ≡ done q → q.id ≡ r.id) launch.compose
        (λ e h. let same : r ≡ q = cc h in ap (λ (p : TerminalRecord). p.id) (sym same))
        (λ f e.
          result-cases (λ (o : Result TerminalRecord). o ≡ done q → q.id ≡ r.id)
            (f r.id r.directory) (λ g e h. absurd (cc h))
            (λ c e h.
              let same : record r { command = c } ≡ q = cc h in
              ap (λ (p : TerminalRecord). p.id) (sym same)))

  -- What minting leaves: the exit, and a record under another id.
  abbrev Minted : Service × Result TerminalRecord → Type 0
  Minted y = IsDurable id x y.0 × ((q : TerminalRecord) → y.1 ≡ done q → q.id ≢ id)

  insert_row-Minted :
      (w : World) (q : TerminalRecord) (s : Service) (rest : Service × Result TerminalRecord)
      → q.id ≢ id
      → IsDurable id x s
      → Minted rest
      → Minted (elim (insert_row w q s).1 [
        | failed e ↦ ((insert_row w q s).0, failed e)
        | done inserted ↦ if inserted then ((insert_row w q s).0, done q) else rest
      ])
  insert_row-Minted w q s rest n d m =
      let kept = insert_row-IsDurable w q s n d in
      result-cases Minted (insert_row w q s).1 (λ e f. (kept, λ p h. absurd (cc h)))
        (λ inserted f.
          if-cases Minted inserted
            (λ g. (
              kept,
              λ p h same.
                  let equal : q ≡ p = cc h in n (ap (λ (p : TerminalRecord). p.id) equal ∙ same),
            ))
            (λ g. m))

  mint-Minted :
      (w : World) (launch : AppLaunch) (r : TerminalRecord) (ids : List String) (s : Service)
      → IsDurable id x s
      → Minted (mint w launch r ids s)
  unfolding mint
  mint-Minted w launch r [] s d = (d, λ q h. absurd (cc h))
  mint-Minted w launch r (k ∷ ks) s d =
      if-cases Minted (has k s.view) (λ e. mint-Minted w launch r ks s d)
        (λ e.
          result-cases Minted (composed launch (record r { id = k }))
            (λ f h. (d, λ q g. absurd (cc g)))
            (λ q h.
              insert_row-Minted w q s (mint w launch r ks s)
                (λ same.
                  shown-other k s d.0 e (sym (composed-id launch (record r { id = k }) q h) ∙ same))
                d (mint-Minted w launch r ks s d)))

  install-IsDurable :
      (texts : Texts) (r : TerminalRecord) (s : Service)
      → r.id ≢ id
      → IsDurable id x s
      → IsDurable id x (install texts r s)
  unfolding install
  install-IsDurable texts r s n d =
      (insert_keeps exit_in id x r.id _ s.view d.0 (λ same. absurd (n same)), d.1)

  pub commit-IsDurable :
      (w : World) (texts : Texts) (launch : AppLaunch) (r : TerminalRecord) (ids : List String)
      (s : Service)
      → IsDurable id x s
      → IsDurable id x (commit w texts launch r ids s).0
  unfolding commit
  commit-IsDurable w texts launch r ids s d =
      result-cases P (live_space r.space_id s) (λ e f. d)
        (λ space f.
          let m = mint-Minted w launch r ids s d in
          result-cases P (mint w launch r ids s).1 (λ e g. m.0)
            (λ q g. install-IsDurable texts q _ (m.1 q g) m.0))
    where
      P : Service × Result TerminalRecord → Type 0
      P y = IsDurable id x y.0
