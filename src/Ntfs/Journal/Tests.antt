-- ===== src/Ntfs/Journal/Tests.antt =====
-- A journal of 4 MiB with one client, closed by a system that leaves the journal open.
use rohos_disk_browser.Prelude.{
  ℕ, ◌+◌, ◌<◌, ◌≤◌, ◌≡◌, ◌↔◌, ◌⊎◌, refl, ap, ◌^◌, Option, none, some, Bool, true, false, arith,
}
use rohos_disk_browser.Ntfs.Journal.{
  no_client, rstr, Client, RestartArea, RestartPage, client_at, check_restart_page_header,
  check_restart_area, check_log_client_array, is_logfile_clean,
}
use rohos_disk_browser.Ntfs.Journal.Clients.{ClientsInPage, HasLists, check_log_client_array_lem}
use rohos_disk_browser.Ntfs.Journal.Bounds.{
  checked_page_bounds, crowded_page, check_restart_area-crowded_page,
}
use rohos_disk_browser.Ntfs.Journal.Search.{loaded, check_and_load_restart_page, check_logfile}
use rohos_disk_browser.Ntfs.Journal.Total.{ArraysInPages, check_logfile-returns}
use rohos_disk_browser.Ntfs.Journal.Found.{check_logfile-page}
use mathlib.Core.Option.{some-injective}
use mathlib.Core.Path.{subst}

abbrev sample_area : RestartArea
sample_area = record {
  current_lsn = 9;
  log_clients = 1;
  client_free_list = 0xffff;
  client_in_use_list = 0;
  flags = 0;
  seq_number_bits = 44;
  restart_area_length = 224;
  client_array_offset = 64;
  file_size = 4194304;
  log_record_header_length = 48;
  log_page_data_offset = 64;
}

abbrev alone : Client
alone = record { prev_client = 0xffff; next_client = 0xffff }

abbrev sample_page : RestartPage
sample_page = record {
  magic = rstr;
  usa_ofs = 30;
  usa_count = 9;
  chkdsk_lsn = 0;
  system_page_size = 4096;
  log_page_size = 4096;
  restart_area_offset = 48;
  minor_ver = 1;
  major_ver = 1;
  area = sample_area;
  clients = λ i. alone;
}

sample_header : check_restart_page_header sample_page 0 ≡ true
unfolding check_restart_page_header
sample_header = refl

sample_area_ok : check_restart_area sample_page ≡ true
unfolding check_restart_area
sample_area_ok = refl

sample_clients : check_log_client_array sample_page ≡ some true
unfolding check_log_client_array
sample_clients = refl

check_log_client_array_lem_example :
    (b : Bool) × (check_log_client_array sample_page ≡ some b) × ((b ≡ true) ↔ HasLists sample_page)
check_log_client_array_lem_example = check_log_client_array_lem sample_page (omega arith)

checked_page_bounds_example :
    ((j : ℕ) × (4096 ≡ 2 ^ j))
    × ((k : ℕ) × (4096 ≡ 2 ^ k))
    × (◌≡◌ {A = ℕ} 0 0 ⊎ ◌≡◌ {A = ℕ} 0 4096)
    × (48 + 224 ≤ 4096)
    × ClientsInPage sample_page
    × (48 + 64 ≤ 510)
    × ((b : Bool) × (check_log_client_array sample_page ≡ some b))
checked_page_bounds_example =
    checked_page_bounds sample_page 0 sample_header sample_area_ok (omega arith)

check_restart_area-crowded_page_example :
    (check_restart_area (crowded_page sample_page) ≡ true)
    × (2047 < (crowded_page sample_page).area.log_clients)
    × (client_at (crowded_page sample_page) 2047 ≡ none)
check_restart_area-crowded_page_example =
    check_restart_area-crowded_page sample_page sample_area_ok (omega arith)

-- Loading gives the page that was read, which must be the sample.
abbrev load_sample : RestartPage → ℕ → Option (RestartPage × Bool)
load_sample rp pos = some (sample_page, false)

abbrev sample_blocks : ℕ → Option RestartPage
sample_blocks pos = some sample_page

load_sample-ArraysInPages : ArraysInPages load_sample
load_sample-ArraysInPages rp pos trp torn header area e =
    let same : sample_page ≡ trp = ap (λ t. t.0) (some-injective _ _ e) in
    (true, subst (λ q. check_log_client_array q ≡ some true) same sample_clients)

check_logfile-returns_example :
    (r : Bool × Option (ℕ × RestartPage) × Bool) × (check_logfile load_sample sample_blocks false
        4194304
      ≡ some r)
check_logfile-returns_example =
    check_logfile-returns load_sample sample_blocks false 4194304 load_sample-ArraysInPages

sample_found :
    check_logfile load_sample sample_blocks false 4194304
    ≡ some (true, some (9, sample_page), false)
unfolding check_logfile check_restart_page_header check_restart_area check_log_client_array
sample_found = refl

check_logfile-page_example :
    (pos : ℕ) × (rp : RestartPage) × (sample_blocks pos ≡ some rp)
    × (check_restart_page_header rp pos ≡ true)
    × (check_restart_area rp ≡ true)
    × (check_and_load_restart_page load_sample rp pos ≡ some (loaded 9 sample_page))
check_logfile-page_example =
    check_logfile-page load_sample sample_blocks 4194304 9 sample_page false sample_found

-- A journal whose first client is in use counts as clean without the flag, and one without clients
-- does not.
used_journal :
    is_logfile_clean false
      (some (record sample_page { area = record sample_page.area { client_in_use_list = 0 } }))
    ≡ true
unfolding is_logfile_clean
used_journal = refl

unused_journal :
    is_logfile_clean false (
      some
        (record sample_page { area = record sample_page.area { client_in_use_list = no_client } }))
    ≡ false
unfolding is_logfile_clean
unused_journal = refl
