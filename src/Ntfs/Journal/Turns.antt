-- ===== src/Ntfs/Journal/Turns.antt =====
-- The turns of the search for restart pages, one equation for each way they go.
use rohos_disk_browser.Prelude.{
  ℕ, suc, ◌<◌, ◌≤◌, ◌≡◌, refl, Option, none, some, Bool, true, false, ltb, arith,
}
use rohos_disk_browser.Ntfs.Journal.{RestartPage}
use rohos_disk_browser.Ntfs.Journal.Search.{
  Pages, next_pos, Turn, ends, goes_on, gives_up, block_turn, search_pages,
}

module _ (load : RestartPage → ℕ → Option (RestartPage × Bool)) where
  module _ (blocks : ℕ → Option RestartPage) where
    pub search_pages_end :
        (fuel size pos : ℕ) (st : Pages)
        → size ≤ pos
        → search_pages load blocks (suc fuel) size pos st ≡ some (some st)
    unfolding search_pages
    search_pages_end fuel size pos st h =
        let past : ltb pos size ≡ false = ground arith in rw (past, search_pages)

    pub search_pages_unread :
        (fuel size pos : ℕ) (st : Pages)
        → pos < size
        → blocks pos ≡ none
        → search_pages load blocks (suc fuel) size pos st ≡ some none
    unfolding search_pages
    search_pages_unread fuel size pos st h e =
        let near : ltb pos size ≡ true = ground arith in
        rw (near, search_pages) (rw (e, search_pages))

    -- What follows a turn.
    abbrev pub after_turn : ℕ → ℕ → ℕ → Turn → Option (Option Pages)
    after_turn fuel size pos (ends st) = some (some st)
    after_turn fuel size pos (goes_on st) = search_pages load blocks fuel size (next_pos pos) st
    after_turn fuel size pos gives_up = some none

    pub search_pages_turn :
        (fuel size pos : ℕ) (st : Pages) (rp : RestartPage) (t : Turn)
        → pos < size
        → blocks pos ≡ some rp
        → block_turn load rp pos st ≡ some t
        → search_pages load blocks (suc fuel) size pos st ≡ after_turn fuel size pos t
    unfolding search_pages
    search_pages_turn fuel size pos st rp t h e f =
        let near : ltb pos size ≡ true = ground arith in
        rw (near, search_pages) (rw (e, search_pages) (rw f (by_turn t)))
      where
        by_turn :
            (t : Turn)
            → elim t [
              | ends st' ↦ some (some st')
              | goes_on st' ↦ search_pages load blocks fuel size (next_pos pos) st'
              | gives_up ↦ some none
            ]
              ≡ after_turn fuel size pos t
        by_turn (ends st') = refl
        by_turn (goes_on st') = refl
        by_turn gives_up = refl

    pub search_pages_fault :
        (fuel size pos : ℕ) (st : Pages) (rp : RestartPage)
        → pos < size
        → blocks pos ≡ some rp
        → block_turn load rp pos st ≡ none
        → search_pages load blocks (suc fuel) size pos st ≡ none
    unfolding search_pages
    search_pages_fault fuel size pos st rp h e f =
        let near : ltb pos size ≡ true = ground arith in
        rw (near, search_pages) (rw (e, search_pages) (rw f))
