-- ===== src/Ntfs/Journal.antt =====
-- filesys/ntfs/logfile.c: the checks of the restart pages of the journal $LogFile. A restart page is a
-- record of its fields, which are numbers, with the signed ones as two's complement words: those of
-- the header, those of the restart area, and for each index the fields prev_client and next_client
-- that stand there in the client array. The sizes of the structures are those that logfile.h gives
-- for them, without padding.
pub mod Clients
pub mod Bounds
pub mod Search
pub mod Turns
pub mod Total
pub mod Found
mod Tests
use rohos_disk_browser.Prelude.{
  ℕ, zero, suc, ◌+◌, ◌-◌, ◌*◌, ◌/◌, ◌%◌, ◌^◌, Option, none, some, Bool, true, false, not, ◌&&◌,
  ◌||◌, if◌then◌else◌, ltb, leb, ◌==◌, ◌>>=◌, bit_and,
}

-- The magic of a record, as far as the journal code tells it apart.
pub data Magic : Type 0 where
  rstr : Magic
  chkd : Magic
  rcrd : Magic
  blank : Magic
  other : Magic

pub record Client : Type 0 where
  pub prev_client : ℕ
  pub next_client : ℕ

pub record RestartArea : Type 0 where
  pub current_lsn : ℕ
  pub log_clients : ℕ
  pub client_free_list : ℕ
  pub client_in_use_list : ℕ
  pub flags : ℕ
  pub seq_number_bits : ℕ
  pub restart_area_length : ℕ
  pub client_array_offset : ℕ
  pub file_size : ℕ
  pub log_record_header_length : ℕ
  pub log_page_data_offset : ℕ

pub record RestartPage : Type 0 where
  pub magic : Magic
  pub usa_ofs : ℕ
  pub usa_count : ℕ
  pub chkdsk_lsn : ℕ
  pub system_page_size : ℕ
  pub log_page_size : ℕ
  pub restart_area_offset : ℕ
  pub minor_ver : ℕ
  pub major_ver : ℕ
  pub area : RestartArea
  pub clients : ℕ → Client

abbrev pub is_chkd : Magic → Bool
is_chkd chkd = true
is_chkd _ = false

abbrev pub is_rstr : Magic → Bool
is_rstr rstr = true
is_rstr _ = false

abbrev pub header_size : ℕ
header_size = 30

abbrev pub client_size : ℕ
client_size = 160

-- LOGFILE_NO_CLIENT.
abbrev pub no_client : ℕ
no_client = 0xffff

-- A page size that is refused.
abbrev pub bad_page_size : ℕ → Bool
bad_page_size n = ltb n 512 || not (bit_and n (n - 1) == 0)

abbrev pub usa_entries : RestartPage → ℕ
usa_entries rp = (1 + rp.system_page_size / 512) % 2 ^ 16

abbrev pub usa_end : RestartPage → ℕ
usa_end rp = (rp.usa_ofs + usa_entries rp * 2) % 2 ^ 16

-- The checks of the update sequence array.
unfoldable pub usa_ok : RestartPage → Bool
usa_ok rp =
    (usa_entries rp == rp.usa_count) && not (ltb rp.usa_ofs header_size || ltb 510 (usa_end rp))

-- The checks of the restart area's place, behind the array's end or, without one, behind the header.
unfoldable pub area_place_ok : RestartPage → ℕ → Bool
area_place_ok rp least =
    (rp.restart_area_offset % 8 == 0)
    && not (ltb rp.restart_area_offset least || ltb rp.system_page_size rp.restart_area_offset)

unfoldable pub check_restart_page_header : RestartPage → ℕ → Bool
unfolding usa_ok area_place_ok
check_restart_page_header rp pos =
    if bad_page_size rp.system_page_size || bad_page_size rp.log_page_size
    then false
    else (if not (pos == 0) && not (pos == rp.system_page_size)
        then false
        else (if not (rp.major_ver == 1) || not (rp.minor_ver == 1)
            then false
            else (let have_usa = not (is_chkd rp.magic && (rp.usa_count == 0)) in
                let least = if have_usa then usa_end rp else header_size in
                if have_usa && not (usa_ok rp)
                then false
                else (if not (area_place_ok rp least)
                    then false
                    else not (not (is_chkd rp.magic) && not (rp.chkdsk_lsn == 0))))))

-- `((x + 7) & ~7) == x`.
abbrev pub is_aligned : ℕ → Bool
is_aligned x = (x + 7) / 8 * 8 == x

-- The length of the restart area with its client array, a u16.
abbrev pub area_length : RestartArea → ℕ
area_length ra = (ra.client_array_offset + ra.log_clients * client_size) % 2 ^ 16

-- A list head that leads into the client array, or to none.
abbrev pub head_ok : RestartArea → ℕ → Bool
head_ok ra head = (head == no_client) || ltb head ra.log_clients

-- `while (file_size) { file_size >>= 1; fs_bits++; }` of a u64.
unfoldable pub size_bits : ℕ → ℕ → ℕ
size_bits zero n = 0
size_bits (suc fuel) n = let rest = size_bits fuel (n / 2) in if n == 0 then 0 else suc rest

unfoldable pub area_fits : RestartPage → Bool
area_fits rp =
    not (ltb rp.system_page_size (rp.restart_area_offset + area_length rp.area))
    && (not (ltb rp.system_page_size (rp.restart_area_offset + rp.area.restart_area_length))
        && not (ltb rp.area.restart_area_length (area_length rp.area)))

unfoldable pub check_restart_area : RestartPage → Bool
unfolding size_bits area_fits
check_restart_area rp =
    let ra = rp.area in
    if ltb 510 (rp.restart_area_offset + 24)
    then false
    else (if not (is_aligned ra.client_array_offset)
          || ltb 510 (rp.restart_area_offset + ra.client_array_offset)
        then false
        else (if not (area_fits rp)
            then false
            else (if not (head_ok ra ra.client_free_list && head_ok ra ra.client_in_use_list)
                then false
                else (if not
                      (ra.seq_number_bits == (67 + 2 ^ 32 - size_bits 64 ra.file_size) % 2 ^ 32)
                    then false
                    else is_aligned ra.log_record_header_length
                      && is_aligned ra.log_page_data_offset))))

-- `cr = ca + idx` and the reads of its first 20 bytes: none past the end of the page.
unfoldable pub client_at : RestartPage → ℕ → Option Client
client_at rp idx =
    if ltb rp.system_page_size
      (rp.restart_area_offset + rp.area.client_array_offset + idx * client_size + 20)
    then none
    else some (rp.clients idx)

-- What the walk of a list comes to: the number of clients that are left for the next list.
pub data Walk : Type 0 where
  through : (left : ℕ) → Walk
  corrupt : Walk

-- The walk of the list from `idx` on, with the clients left that may still be met.
unfoldable pub walk_list : RestartPage → ℕ → ℕ → Bool → Option Walk
unfolding client_at
walk_list rp zero idx idx_is_first = some (if idx == no_client then through 0 else corrupt)
walk_list rp (suc n) idx idx_is_first = elim (idx == no_client) [
  | true ↦ some (through (suc n))
  | false ↦ elim (leb rp.area.log_clients idx) [
    | true ↦ some corrupt
    | false ↦ client_at rp idx >>= λ cr. elim (idx_is_first && not (cr.prev_client == no_client)) [
      | true ↦ some corrupt
      | false ↦ walk_list rp n cr.next_client false
    ]
  ]
]

-- What follows a list that is in order.
abbrev pub on_through : Option Walk → (ℕ → Option Bool) → Option Bool
on_through none f = none
on_through (some corrupt) f = some false
on_through (some (through left)) f = f left

unfoldable pub check_log_client_array : RestartPage → Option Bool
unfolding walk_list
check_log_client_array rp =
    on_through (walk_list rp rp.area.log_clients rp.area.client_free_list true)
      λ left. on_through (walk_list rp left rp.area.client_in_use_list true) λ left'. some true

-- RESTART_VOLUME_IS_CLEAN.
abbrev pub volume_is_clean : ℕ → Bool
volume_is_clean flags = flags / 2 % 2 == 1

-- `empty` is the volume's flag NVolLogFileEmpty, and the page the one that the check found.
unfoldable pub is_logfile_clean : Bool → Option RestartPage → Bool
is_logfile_clean true rp = true
is_logfile_clean false none = false
is_logfile_clean false (some rp) =
    if not (is_rstr rp.magic) && not (is_chkd rp.magic)
    then false
    else not (not (rp.area.client_in_use_list == 0) && not (volume_is_clean rp.area.flags))
