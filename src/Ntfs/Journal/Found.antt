-- ===== src/Ntfs/Journal/Found.antt =====
-- The page that the search for restart pages answers passed the checks.
use rohos_disk_browser.Prelude.{
  ℕ, zero, suc, ◌-◌, ◌*◌, ◌/◌, ◌≡◌, ◌≢◌, refl, sym, ap, ◌∙◌, inl, inr, Option, none, some, Bool,
  true, false, not, ◌&&◌, ◌||◌, ltb, ◌==◌, ◌>>=◌, arith, Bool-cases, Option-cases,
}
use rohos_disk_browser.Ntfs.Runs.{slt}
use rohos_disk_browser.Ntfs.Journal.{
  RestartPage, is_rstr, is_chkd, check_restart_page_header, check_restart_area,
}
use rohos_disk_browser.Ntfs.Journal.Search.{
  Loaded, loaded, invalid, failed, is_blank, is_rcrd, Pages, add_page, next_pos, Turn, ends,
  goes_on, gives_up, check_and_load_restart_page, after_load, block_turn, search_pages, newest,
  answer, conclude, journal_size, check_logfile,
}
use mathlib.Core.Option.{some-injective}
use mathlib.Core.Path.{subst}
use rohos_disk_browser.Ntfs.Journal.Turns.{
  search_pages_end, search_pages_unread, search_pages_turn, search_pages_fault, after_turn,
}

none_ne_some {ℓ} : {A : Type ℓ} {a : A} → none ≢ some a
none_ne_some h = cc

module _ (load : RestartPage → ℕ → Option (RestartPage × Bool)) where
  module _ (blocks : ℕ → Option RestartPage) where
    -- A page that was found: it begins at a block that passes the checks, and the page and the LSN
    -- are what loading it gave.
    abbrev pub Found : ℕ × RestartPage → Type 0
    Found (lsn, page) =
        (pos : ℕ) × (rp : RestartPage) × (blocks pos ≡ some rp)
        × (check_and_load_restart_page load rp pos ≡ some (loaded lsn page))

    abbrev AllFound : Pages → Type 0
    AllFound st =
        ((p : ℕ × RestartPage) → st.first ≡ some p → Found p)
        × ((p : ℕ × RestartPage) → st.second ≡ some p → Found p)

    add_page-AllFound :
        (st : Pages) (p : ℕ × RestartPage) → AllFound st → Found p → AllFound (add_page st p)
    add_page-AllFound st p (f, g) found = elim (Option-cases st.first) [
      | inl free ↦ rw (free, add_page) ((λ q e. subst Found (some-injective _ _ e) found), g)
      | inr (q, taken) ↦
          rw (taken, add_page)
            ((λ q' e. f q' e), (λ q' e. subst Found (some-injective _ _ e) found))
    ]

    abbrev TurnFound : Turn → Type 0
    TurnFound (ends st) = AllFound st
    TurnFound (goes_on st) = AllFound st
    TurnFound gives_up = Unit

    after_load-TurnFound :
        (pos : ℕ) (rp : RestartPage) (st : Pages) (r : Loaded)
        → blocks pos ≡ some rp
        → check_and_load_restart_page load rp pos ≡ some r
        → AllFound st
        → TurnFound (after_load pos st r)
    after_load-TurnFound pos rp st (loaded lsn page) e f all =
        let more = add_page-AllFound st (lsn, page) all (pos, rp, e, f) in
        elim (Bool-cases (pos == 0)) [
          | inl start ↦ rw (start, TurnFound) more
          | inr later ↦ rw (later, TurnFound) more
        ]
    after_load-TurnFound pos rp st invalid e f all = all
    after_load-TurnFound pos rp st failed e f all = tt

    block_turn-TurnFound :
        (pos : ℕ) (rp : RestartPage) (st : Pages) (t : Turn)
        → blocks pos ≡ some rp
        → block_turn load rp pos st ≡ some t
        → AllFound st
        → TurnFound t
    unfolding block_turn
    block_turn-TurnFound pos rp st t e f all =
        let st' : Pages = record st {
          logfile_is_empty = is_blank rp.magic && st.logfile_is_empty;
        } in
        let all' : AllFound st' = all in
        elim (Bool-cases (is_blank rp.magic && not st.logfile_is_empty)) [
          | inl done ↦ subst TurnFound (some-injective _ _ (rw done at f)) all
          | inr on ↦ elim (Bool-cases (is_rcrd rp.magic)) [
            | inl log ↦ subst TurnFound (some-injective _ _ (rw (on, log) at f)) all'
            | inr page ↦ elim (Bool-cases (not (is_rstr rp.magic) && not (is_chkd rp.magic))) [
              | inl other ↦ subst TurnFound (some-injective _ _ (rw (on, page, other) at f)) all'
              | inr restart ↦ elim (Option-cases (check_and_load_restart_page load rp pos)) [
                | inl fault ↦ absurd (none_some (rw (on, page, restart, fault) at f))
                | inr (r, g) ↦
                    subst TurnFound (some-injective _ _ (rw (on, page, restart, g) at f))
                      (after_load-TurnFound pos rp st' r e g all')
              ]
            ]
          ]
        ]
      where
        none_some : none ≢ some t
        none_some h = cc

    give_up : (st : Pages) → some none ≢ some (some st)
    give_up st h = absurd (no_pages (some-injective _ _ h))
      where
        no_pages : none ≢ some st
        no_pages k = cc

    twice_injective : (a b : Pages) → some (some a) ≡ some (some b) → a ≡ b
    twice_injective a b h = some-injective _ _ (some-injective _ _ h)

    search_pages-AllFound :
        (fuel size pos : ℕ) (st st' : Pages)
        → search_pages load blocks fuel size pos st ≡ some (some st')
        → AllFound st
        → AllFound st'
    search_pages-AllFound zero size pos st st' e all = unfold search_pages in absurd (none_some e)
      where
        none_some : none ≢ some (some st')
        none_some h = cc
    search_pages-AllFound (suc fuel) size pos st st' e all = elim (Bool-cases (ltb pos size)) [
      | inr past ↦
          subst AllFound
            (twice_injective st st'
              (sym (search_pages_end load blocks fuel size pos st (ground arith)) ∙ e))
            all
      | inl near ↦ elim (Option-cases (blocks pos)) [
        | inl unread ↦ absurd (
            give_up st'
              (sym (search_pages_unread load blocks fuel size pos st (ground arith) unread) ∙ e))
        | inr (rp, f) ↦ elim (Option-cases (block_turn load rp pos st)) [
          | inl fault ↦ absurd (
              none_some (
                sym (search_pages_fault load blocks fuel size pos st rp (ground arith) f fault)
                ∙ e))
          | inr (t, g) ↦
              ended_turn t (block_turn-TurnFound pos rp st t f g all)
                (sym (search_pages_turn load blocks fuel size pos st rp t (ground arith) f g) ∙ e)
                (λ st1 e1 all1. search_pages-AllFound fuel size (next_pos pos) st1 st' e1 all1)
        ]
      ]
    ]
      where
        none_some : none ≢ some (some st')
        none_some h = cc

        ended_turn :
            (t : Turn)
            → TurnFound t
            → after_turn load blocks fuel size pos t ≡ some (some st')
            → ((st1 : Pages)
                → search_pages load blocks fuel size (next_pos pos) st1 ≡ some (some st')
                → AllFound st1
                → AllFound st')
            → AllFound st'
        ended_turn (ends st1) found h k = subst AllFound (twice_injective st1 st' h) found
        ended_turn (goes_on st1) found h k = k st1 h found
        ended_turn gives_up found h k = absurd (give_up st' h)

    newest-Found :
        (first second : Option (ℕ × RestartPage)) (p : ℕ × RestartPage)
        → ((q : ℕ × RestartPage) → first ≡ some q → Found q)
        → ((q : ℕ × RestartPage) → second ≡ some q → Found q)
        → newest first second ≡ some p
        → Found p
    newest-Found none second p f g e = absurd (none_some e)
      where
        none_some : none ≢ some p
        none_some h = cc
    newest-Found (some p1) none p f g e = f p e
    newest-Found (some p1) (some p2) p f g e = elim (Bool-cases (slt p1.0 p2.0)) [
      | inl later ↦ g p (rw (later, newest) at e)
      | inr before ↦ f p (rw (before, newest) at e)
    ]

    conclude-Found :
        (st : Pages) (p : ℕ × RestartPage) (empty : Bool)
        → AllFound st
        → conclude (some st) ≡ (true, some p, empty)
        → Found p
    conclude-Found st p empty (f, g) e = elim (Bool-cases st.logfile_is_empty) [
      | inl blank ↦ absurd (none_some (ap (λ t. t.1) (rw (blank, conclude) at e)))
      | inr used ↦
          answered (newest st.first st.second) (rw (used, conclude) at e)
            (λ q h. newest-Found st.first st.second q f g h)
    ]
      where
        none_some : none ≢ some p
        none_some h = cc

        answered :
            (o : Option (ℕ × RestartPage))
            → answer o ≡ (true, some p, empty)
            → ((q : ℕ × RestartPage) → o ≡ some q → Found q)
            → Found p
        answered none h k = absurd (none_some (ap (λ t. t.1) h))
        answered (some q) h k = k p (ap (λ t. t.1) h)

    start_AllFound : AllFound (record { first = none; second = none; logfile_is_empty = true })
    start_AllFound = ((λ p e. absurd (none_some p e)), (λ p e. absurd (none_some p e)))
      where
        none_some : (p : ℕ × RestartPage) → none ≢ some p
        none_some p h = cc

    search_answer :
        (o : Option (Option Pages)) (p : ℕ × RestartPage) (empty : Bool)
        → ((st : Pages) → o ≡ some (some st) → AllFound st)
        → (o >>= λ st. some (conclude st)) ≡ some (true, some p, empty)
        → Found p
    search_answer none p empty k e = absurd (none_ne_some e)
    search_answer (some none) p empty k e =
        absurd (none_some (ap (λ t. t.1) (some-injective _ _ e)))
      where
        none_some : none ≢ some p
        none_some h = cc
    search_answer (some (some st)) p empty k e =
        conclude-Found st p empty (k st refl) (some-injective _ _ e)

  -- What loading a page that was not refused tells.
  loaded_checks :
      (rp : RestartPage) (pos lsn : ℕ) (page : RestartPage)
      → check_and_load_restart_page load rp pos ≡ some (loaded lsn page)
      → (check_restart_page_header rp pos ≡ true) × (check_restart_area rp ≡ true)
  unfolding check_and_load_restart_page
  loaded_checks rp pos lsn page e = elim (Bool-cases (check_restart_page_header rp pos)) [
    | inr bad ↦ absurd (refused (rw bad at e))
    | inl header ↦ elim (Bool-cases (check_restart_area rp)) [
      | inr bad ↦ absurd (refused (rw (header, bad) at e))
      | inl area ↦ (header, area)
    ]
  ]
    where
      refused : some invalid ≢ some (loaded lsn page)
      refused h = cc

  -- A page that the search of a journal answers comes of a block of the journal whose header and
  -- restart area pass the checks, and is, with its LSN, what loading it gave.
  pub check_logfile-page :
      (blocks : ℕ → Option RestartPage) (data_size lsn : ℕ) (page : RestartPage) (empty : Bool)
      → check_logfile load blocks false data_size ≡ some (true, some (lsn, page), empty)
      → (pos : ℕ) × (rp : RestartPage) × (blocks pos ≡ some rp)
        × (check_restart_page_header rp pos ≡ true)
        × (check_restart_area rp ≡ true)
        × (check_and_load_restart_page load rp pos ≡ some (loaded lsn page))
  unfolding check_logfile
  check_logfile-page blocks data_size lsn page empty e =
      let size : ℕ = journal_size data_size in
      let found : Found blocks (lsn, page) =
        elim (Bool-cases (ltb size (4096 * 2) || ltb ((size - 4096 * 2) / 4096) 48)) [
          | inl small ↦ absurd (false_true (ap (λ t. t.0) (some-injective _ _ (rw small at e))))
          | inr large ↦
              search_answer blocks _ (lsn, page) empty
                (λ st h.
                  search_pages-AllFound blocks 25 size 0
                    (record { first = none; second = none; logfile_is_empty = true }) st h
                    (start_AllFound blocks))
                (rw large at e)
        ] in
      let (pos, rp, block, load_eq) = found in
      let (header, area) = loaded_checks rp pos lsn page load_eq in
      (pos, rp, block, header, area, load_eq)
    where
      false_true : false ≢ true
      false_true h = cc
