-- ===== src/Ntfs/Journal/Search.antt =====
-- filesys/ntfs/logfile.c: the search for the restart pages of the journal. `blocks` is the read of the
-- first block at an offset, as the restart page that it would begin, or none where the read fails.
-- `load` is the copy or the read of the whole page and its deprotection by mst.c: the page that comes
-- of it and whether the fixup failed, or none where the page cannot be allocated or read.
use rohos_disk_browser.Prelude.{
  ℕ, zero, suc, ◌+◌, ◌-◌, ◌*◌, ◌/◌, ◌^◌, Option, none, some, Bool, true, false, not, ◌&&◌, ◌||◌,
  if◌then◌else◌, ltb, ◌==◌, ◌>>=◌, min,
}
use rohos_disk_browser.Ntfs.Runs.{slt}
use rohos_disk_browser.Ntfs.Journal.{
  Magic, rcrd, blank, RestartPage, is_rstr, is_chkd, no_client, check_restart_page_header,
  check_restart_area, check_log_client_array,
}

-- What ntfs_check_and_load_restart_page returns: the LSN and the page, EINVAL, or another error.
pub data Loaded : Type 0 where
  loaded : (lsn : ℕ) → (page : RestartPage) → Loaded
  invalid : Loaded
  failed : Loaded

abbrev pub page_lsn : RestartPage → ℕ
page_lsn rp = if is_rstr rp.magic then rp.area.current_lsn else rp.chkdsk_lsn

-- The part behind the deprotection.
unfoldable pub check_loaded : RestartPage → RestartPage → Bool → Option Loaded
check_loaded rp trp torn =
    if torn && ltb 510 (rp.restart_area_offset + rp.area.restart_area_length)
    then some invalid
    else (if is_rstr rp.magic && not (rp.area.client_in_use_list == no_client)
        then (check_log_client_array trp >>= λ b.
            some (if b then loaded (page_lsn rp) trp else invalid))
        else some (loaded (page_lsn rp) trp))

abbrev pub is_blank : Magic → Bool
is_blank blank = true
is_blank _ = false

abbrev pub is_rcrd : Magic → Bool
is_rcrd rcrd = true
is_rcrd _ = false

-- The restart pages that were found, each with its LSN, and whether all blocks were empty.
pub record Pages : Type 0 where
  pub first : Option (ℕ × RestartPage)
  pub second : Option (ℕ × RestartPage)
  pub logfile_is_empty : Bool

abbrev pub add_page : Pages → ℕ × RestartPage → Pages
add_page st p = elim st.first [
  | none ↦ record st { first = some p }
  | some q ↦ record st { second = some p }
]

-- `if (!pos) pos = NTFS_BLOCK_SIZE >> 1;` and the `pos <<= 1` of the loop.
abbrev pub next_pos : ℕ → ℕ
next_pos pos = if pos == 0 then 512 else pos * 2

-- What a block makes of the search: it ends with the pages found, it goes on, or it is given up.
pub data Turn : Type 0 where
  ends : Pages → Turn
  goes_on : Pages → Turn
  gives_up : Turn

-- The outcome of a restart page at `pos`.
abbrev pub after_load : ℕ → Pages → Loaded → Turn
after_load pos st (loaded lsn page) =
    if pos == 0 then goes_on (add_page st (lsn, page)) else ends (add_page st (lsn, page))
after_load pos st invalid = goes_on st
after_load pos st failed = gives_up

-- The more recent page, where both were found.
abbrev pub newest : Option (ℕ × RestartPage) → Option (ℕ × RestartPage) → Option (ℕ × RestartPage)
newest none second = none
newest (some p) none = some p
newest (some p) (some q) = if slt p.0 q.0 then some q else some p

-- The answer, the page, and the new NVolLogFileEmpty.
abbrev pub answer : Option (ℕ × RestartPage) → Bool × Option (ℕ × RestartPage) × Bool
answer none = (false, none, false)
answer (some p) = (true, some p, false)

abbrev pub conclude : Option Pages → Bool × Option (ℕ × RestartPage) × Bool
conclude none = (false, none, false)
conclude (some st) =
    if st.logfile_is_empty then (true, none, true) else answer (newest st.first st.second)

abbrev pub journal_size : ℕ → ℕ
journal_size data_size = min data_size (2 ^ 32) / 4096 * 4096

module _ (load : RestartPage → ℕ → Option (RestartPage × Bool)) where
  unfoldable pub check_and_load_restart_page : RestartPage → ℕ → Option Loaded
  unfolding check_loaded
  check_and_load_restart_page rp pos =
      if not (check_restart_page_header rp pos)
      then some invalid
      else (if not (check_restart_area rp) then some invalid else elim (load rp pos) [
        | none ↦ some failed
        | some (trp, torn) ↦ check_loaded rp trp torn
      ])

  unfoldable pub block_turn : RestartPage → ℕ → Pages → Option Turn
  unfolding check_and_load_restart_page
  block_turn rp pos st =
      if is_blank rp.magic && not st.logfile_is_empty
      then some (ends st)
      else (let st' = record st { logfile_is_empty = is_blank rp.magic && st.logfile_is_empty } in
          if is_rcrd rp.magic
          then some (ends st')
          else (if not (is_rstr rp.magic) && not (is_chkd rp.magic)
              then some (goes_on st')
              else (check_and_load_restart_page rp pos >>= λ r. some (after_load pos st' r))))

  module _ (blocks : ℕ → Option RestartPage) where
    -- The loop over the places where a page may begin. The pages found, or none for `err_out`; the
    -- outer none is a read outside of a page.
    unfoldable pub search_pages : ℕ → ℕ → ℕ → Pages → Option (Option Pages)
    unfolding block_turn
    search_pages zero size pos st = none
    search_pages (suc fuel) size pos st = elim (ltb pos size) [
      | false ↦ some (some st)
      | true ↦ elim (blocks pos) [
        | none ↦ some none
        | some rp ↦ block_turn rp pos st >>= λ t. elim t [
          | ends st' ↦ some (some st')
          | goes_on st' ↦ search_pages fuel size (next_pos pos) st'
          | gives_up ↦ some none
        ]
      ]
    ]

    unfoldable pub check_logfile : Bool → ℕ → Option (Bool × Option (ℕ × RestartPage) × Bool)
    unfolding search_pages
    check_logfile true data_size = some (true, none, true)
    check_logfile false data_size =
        let size = journal_size data_size in
        if ltb size (4096 * 2) || ltb ((size - 4096 * 2) / 4096) 48
        then some (false, none, false)
        else (search_pages 25 size 0
              (record { first = none; second = none; logfile_is_empty = true })
            >>= λ st. some (conclude st))
