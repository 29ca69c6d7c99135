-- ===== src/Ntfs/Journal/Total.antt =====
-- The search for restart pages ends.
use rohos_disk_browser.Prelude.{
  ℕ, zero, suc, ◌+◌, ◌-◌, ◌*◌, ◌/◌, ◌^◌, ◌<◌, ◌≤◌, ◌≡◌, refl, ◌∙◌, inl, inr, Option, none, some,
  Bool, true, false, not, ◌&&◌, ◌||◌, if◌then◌else◌, ltb, ◌==◌, arith, Bool-cases, Option-cases,
}
use rohos_disk_browser.Ntfs.Journal.{
  RestartPage, is_rstr, is_chkd, no_client, check_restart_page_header, check_restart_area,
  check_log_client_array,
}
use rohos_disk_browser.Ntfs.Journal.Search.{
  Loaded, loaded, invalid, failed, page_lsn, check_loaded, is_blank, is_rcrd, Pages, next_pos, Turn,
  ends, goes_on, gives_up, check_and_load_restart_page, after_load, block_turn, search_pages,
  conclude, journal_size, check_logfile,
}
use native.Mathlib.Nat.{pow-suc}
use rohos_disk_browser.Ntfs.Journal.Turns.{
  search_pages_end, search_pages_unread, search_pages_turn, after_turn,
}

-- The array check of every page that is loaded ends inside the page.
abbrev pub ArraysInPages : (RestartPage → ℕ → Option (RestartPage × Bool)) → Type 0
ArraysInPages load =
    (rp : RestartPage) (pos : ℕ) (trp : RestartPage) (torn : Bool)
    → check_restart_page_header rp pos ≡ true
    → check_restart_area rp ≡ true
    → load rp pos ≡ some (trp, torn)
    → (b : Bool) × (check_log_client_array trp ≡ some b)

check_loaded_total :
    (rp trp : RestartPage) (torn b : Bool)
    → check_log_client_array trp ≡ some b
    → (r : Loaded) × (check_loaded rp trp torn ≡ some r)
unfolding check_loaded
check_loaded_total rp trp torn b e =
    elim (Bool-cases (torn && ltb 510 (rp.restart_area_offset + rp.area.restart_area_length))) [
      | inl bad ↦ (invalid, rw bad)
      | inr good ↦
          elim (Bool-cases (is_rstr rp.magic && not (rp.area.client_in_use_list == no_client))) [
            | inl used ↦ (if b then loaded (page_lsn rp) trp else invalid, rw (good, used, e))
            | inr free ↦ (loaded (page_lsn rp) trp, rw (good, free))
          ]
    ]

next_pos_doubles : (pos : ℕ) → 0 < pos → next_pos pos ≡ pos * 2
next_pos_doubles pos h = ground arith

next_pos_pos : (pos : ℕ) → 0 < pos → 0 < next_pos pos
next_pos_pos pos h = omega (arith, next_pos_doubles pos h)

next_pos_enough :
    (fuel size pos : ℕ) → 0 < pos → size ≤ pos * 2 ^ suc fuel → size ≤ next_pos pos * 2 ^ fuel
next_pos_enough fuel size pos h enough =
    let same : pos * 2 ^ suc fuel ≡ next_pos pos * 2 ^ fuel =
      rw (next_pos_doubles pos h, pow-suc) (grind arith) in
    omega arith

module _ (load : RestartPage → ℕ → Option (RestartPage × Bool)) where
  check_and_load_total :
      (rp : RestartPage) (pos : ℕ)
      → ArraysInPages load
      → (r : Loaded) × (check_and_load_restart_page load rp pos ≡ some r)
  unfolding check_and_load_restart_page
  check_and_load_total rp pos arrays = elim (Bool-cases (check_restart_page_header rp pos)) [
    | inr bad ↦ (invalid, rw (bad, check_and_load_restart_page))
    | inl header ↦ elim (Bool-cases (check_restart_area rp)) [
      | inr bad ↦ (invalid, rw (header, bad, check_and_load_restart_page))
      | inl area ↦ elim (Option-cases (load rp pos)) [
        | inl out ↦ (failed, rw (header, area, out, check_and_load_restart_page))
        | inr ((trp, torn), e) ↦
            let (b, eb) = arrays rp pos trp torn header area e in
            let (r, er) = check_loaded_total rp trp torn b eb in
            (r, rw (header, area, e, check_and_load_restart_page) er)
      ]
    ]
  ]

  block_turn_total :
      (rp : RestartPage) (pos : ℕ) (st : Pages)
      → ArraysInPages load
      → (t : Turn) × (block_turn load rp pos st ≡ some t)
  unfolding block_turn
  block_turn_total rp pos st arrays =
      let st' = record st { logfile_is_empty = is_blank rp.magic && st.logfile_is_empty } in
      elim (Bool-cases (is_blank rp.magic && not st.logfile_is_empty)) [
        | inl done ↦ (ends st, rw done)
        | inr on ↦ elim (Bool-cases (is_rcrd rp.magic)) [
          | inl log ↦ (ends st', rw (on, log))
          | inr page ↦ elim (Bool-cases (not (is_rstr rp.magic) && not (is_chkd rp.magic))) [
            | inl other ↦ (goes_on st', rw (on, page, other))
            | inr restart ↦
                let (r, e) = check_and_load_total rp pos arrays in
                (after_load pos st' r, rw (on, page, restart, e))
          ]
        ]
      ]

  module _ (blocks : ℕ → Option RestartPage) where
    -- From a place past the start the search ends within as many turns as the place doubles.
    search_pages_total :
        (fuel size pos : ℕ) (st : Pages)
        → ArraysInPages load
        → 0 < pos
        → size ≤ pos * 2 ^ fuel
        → (r : Option Pages) × (search_pages load blocks (suc fuel) size pos st ≡ some r)
    search_pages_total zero size pos st arrays h enough =
        (some st, search_pages_end load blocks zero size pos st (omega arith))
    search_pages_total (suc fuel) size pos st arrays h enough = elim (Bool-cases (ltb pos size)) [
      | inr past ↦ (some st, search_pages_end load blocks (suc fuel) size pos st (ground arith))
      | inl near ↦ elim (Option-cases (blocks pos)) [
        | inl unread ↦
            (none, search_pages_unread load blocks (suc fuel) size pos st (ground arith) unread)
        | inr (rp, e) ↦
            let (t, f) = block_turn_total rp pos st arrays in
            let on = search_pages_turn load blocks (suc fuel) size pos st rp t (ground arith) e f in
            let (r, g) = ended_turn t (λ st'.
              search_pages_total fuel size (next_pos pos) st' arrays (next_pos_pos pos h)
                (next_pos_enough fuel size pos h enough)) in
            (r, on ∙ g)
      ]
    ]
      where
        ended_turn :
            (t : Turn)
            → ((st' : Pages)
                → (r : Option Pages) × (search_pages load blocks (suc fuel) size (next_pos pos) st'
                    ≡ some r))
            → (r : Option Pages) × (after_turn load blocks (suc fuel) size pos t ≡ some r)
        ended_turn (ends st') k = (some st', refl)
        ended_turn (goes_on st') k = k st'
        ended_turn gives_up k = (none, refl)

    search_from_start :
        (fuel size : ℕ) (st : Pages)
        → ArraysInPages load
        → size ≤ 512 * 2 ^ fuel
        → (r : Option Pages) × (search_pages load blocks (suc (suc fuel)) size 0 st ≡ some r)
    search_from_start fuel size st arrays enough = elim (Bool-cases (ltb 0 size)) [
      | inr past ↦ (some st, search_pages_end load blocks (suc fuel) size 0 st (ground arith))
      | inl near ↦ elim (Option-cases (blocks 0)) [
        | inl unread ↦
            (none, search_pages_unread load blocks (suc fuel) size 0 st (ground arith) unread)
        | inr (rp, e) ↦
            let (t, f) = block_turn_total rp 0 st arrays in
            let on = search_pages_turn load blocks (suc fuel) size 0 st rp t (ground arith) e f in
            let (r, g) = ended_turn t in (r, on ∙ g)
      ]
    ]
      where
        ended_turn :
            (t : Turn) → (r : Option Pages) × (after_turn load blocks (suc fuel) size 0 t ≡ some r)
        ended_turn (ends st') = (some st', refl)
        ended_turn (goes_on st') = search_pages_total fuel size 512 st' arrays (omega arith) enough
        ended_turn gives_up = (none, refl)

    -- The search for restart pages ends, whatever the journal holds and however large it is: it reads
    -- at most 25 blocks, and answers. It needs that the check of the client array of each page loaded
    -- that passed the other checks ends inside the page.
    pub check_logfile-returns :
        (empty : Bool) (data_size : ℕ)
        → ArraysInPages load
        → (r : Bool × Option (ℕ × RestartPage) × Bool) × (check_logfile load blocks empty data_size
            ≡ some r)
    unfolding check_logfile
    check_logfile-returns true data_size arrays = ((true, none, true), refl)
    check_logfile-returns false data_size arrays =
        let size : ℕ = journal_size data_size in
        let start : Pages = record { first = none; second = none; logfile_is_empty = true } in
        elim (Bool-cases (ltb size (4096 * 2) || ltb ((size - 4096 * 2) / 4096) 48)) [
          | inl small ↦ ((false, none, false), rw small)
          | inr large ↦
              let (r, e) = search_from_start 23 size start arrays (omega arith) in
              (conclude r, rw (large, e))
        ]
