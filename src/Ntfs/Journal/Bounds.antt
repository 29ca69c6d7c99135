-- ===== src/Ntfs/Journal/Bounds.antt =====
-- What the checks of a restart page say of the places of its parts.
use rohos_disk_browser.Prelude.{
  ℕ, ◌+◌, ◌-◌, ◌*◌, ◌%◌, ◌^◌, ◌<◌, ◌≤◌, ◌≡◌, refl, ◌⊎◌, none, some, Bool, true, false, not, ◌&&◌,
  ◌||◌, if◌then◌else◌, ltb, arith, bit_and,
}
use rohos_disk_browser.Prelude.Masks.{mask_lem}
use rohos_disk_browser.Ntfs.Journal.{
  RestartArea, RestartPage, client_size, check_restart_page_header, is_aligned, head_ok, area_fits,
  check_restart_area, client_at, check_log_client_array,
}
use rohos_disk_browser.Ntfs.Journal.Clients.{ClientsInPage, check_log_client_array_lem}

-- A guard of a check that succeeds.
passed : (b x : Bool) → (if b then false else x) ≡ true → (b ≡ false) × (x ≡ true)
passed true x e = cc
passed false x e = (refl, e)

pass : (b x : Bool) → b ≡ false → x ≡ true → (if b then false else x) ≡ true
pass b x e f = rw e f

not-not : (b : Bool) → not b ≡ false → b ≡ true
not-not true h = refl
not-not false h = cc

not_past : (a b : ℕ) → ltb a b ≡ false → b ≤ a
not_past a b h = ground arith

second_false : (a b : Bool) → (a || b) ≡ false → b ≡ false
second_false true b h = cc
second_false false b h = h

module _ (rp : RestartPage) where
  -- The array's length is not cut to 16 bits.
  abbrev pub ArrayFits : Type 0
  ArrayFits = rp.area.client_array_offset + rp.area.log_clients * client_size < 2 ^ 16

  area_bounds :
      check_restart_area rp ≡ true
      → (area_fits rp ≡ true)
        × (rp.restart_area_offset + rp.area.client_array_offset ≤ 510)
        × (rp.restart_area_offset + 24 ≤ 510)
  unfolding check_restart_area
  area_bounds e =
      let (near, rest) = passed (ltb 510 (rp.restart_area_offset + 24)) _ e in
      let (array, rest') =
        passed
          (not (is_aligned rp.area.client_array_offset)
            || ltb 510 (rp.restart_area_offset + rp.area.client_array_offset))
          _ rest in
      let (fits, rest'') = passed (not (area_fits rp)) _ rest' in
      (not-not (area_fits rp) fits, not_past _ _ (second_false _ _ array), not_past _ _ near)

  fits_bounds :
      area_fits rp ≡ true
      → ArrayFits
      → ClientsInPage rp
        × (rp.restart_area_offset + rp.area.restart_area_length ≤ rp.system_page_size)
  unfolding area_fits
  fits_bounds e small = ground arith

  header_bounds :
      (pos : ℕ)
      → check_restart_page_header rp pos ≡ true
      → (512 ≤ rp.system_page_size)
        × (bit_and rp.system_page_size (rp.system_page_size - 1) ≡ 0)
        × (512 ≤ rp.log_page_size)
        × (bit_and rp.log_page_size (rp.log_page_size - 1) ≡ 0)
        × ((pos ≡ 0) ⊎ (pos ≡ rp.system_page_size))
        × (rp.restart_area_offset ≤ rp.system_page_size)
  unfolding check_restart_page_header
  header_bounds pos e = ground arith

-- A restart page that passes the checks of its header and its restart area, with a client array that
-- is shorter than 64 KiB: the sizes of its pages are powers of two of at least 512, it stands at the
-- start of the journal or one page behind, its restart area and the client array lie inside the page,
-- and everything in front of the array inside the part of the first block that no fixup touches. The
-- check of the array then ends and reads nothing outside of the page.
pub checked_page_bounds :
    (rp : RestartPage) (pos : ℕ)
    → check_restart_page_header rp pos ≡ true
    → check_restart_area rp ≡ true
    → ArrayFits rp
    → ((j : ℕ) × (rp.system_page_size ≡ 2 ^ j))
      × ((k : ℕ) × (rp.log_page_size ≡ 2 ^ k))
      × ((pos ≡ 0) ⊎ (pos ≡ rp.system_page_size))
      × (rp.restart_area_offset + rp.area.restart_area_length ≤ rp.system_page_size)
      × ClientsInPage rp
      × (rp.restart_area_offset + rp.area.client_array_offset ≤ 510)
      × ((b : Bool) × (check_log_client_array rp ≡ some b))
checked_page_bounds rp pos header area small =
    let (s512, smask, l512, lmask, place, _) = header_bounds rp pos header in
    let (fits, array, _) = area_bounds rp area in
    let (inside, ends) = fits_bounds rp fits small in
    let (b, e, _) = check_log_client_array_lem rp inside in
    (
      mask_lem rp.system_page_size (omega arith) smask,
      mask_lem rp.log_page_size (omega arith) lmask,
      place,
      ends,
      inside,
      array,
      (b, e),
    )

-- The page with 2048 more clients in its restart area.
unfoldable pub crowded_page : RestartPage → RestartPage
crowded_page rp = record rp { area = record rp.area { log_clients = rp.area.log_clients + 2048 } }

area_fits_crowded : (rp : RestartPage) → area_fits (crowded_page rp) ≡ area_fits rp
unfolding area_fits crowded_page
area_fits_crowded rp =
    let same : (rp.area.client_array_offset + (rp.area.log_clients + 2048) * 160) % 65536
        ≡ (rp.area.client_array_offset + rp.area.log_clients * 160) % 65536 =
      omega arith in
    rw same

-- The two heads of a restart area are in order.
abbrev heads_ok : RestartArea → Bool
heads_ok ra = head_ok ra ra.client_free_list && head_ok ra ra.client_in_use_list

heads_crowded :
    (rp : RestartPage)
    → not (heads_ok rp.area) ≡ false
    → not (heads_ok (crowded_page rp).area) ≡ false
unfolding crowded_page
heads_crowded rp h = ground arith

-- The guards of the check of a restart area, one by one.
abbrev guards : Bool → Bool → Bool → Bool → Bool → Bool
guards near array fits heads rest =
    if near
    then false
    else (if array
        then false
        else (if not fits then false else (if not heads then false else rest)))

guards_other :
    (near array fits heads rest fits' heads' : Bool)
    → guards near array fits heads rest ≡ true
    → fits' ≡ fits
    → (not heads ≡ false → not heads' ≡ false)
    → guards near array fits' heads' rest ≡ true
guards_other near array fits heads rest fits' heads' e same more =
    let (a, e1) = passed near _ e in
    let (b, e2) = passed array _ e1 in
    let (c, e3) = passed (not fits) _ e2 in
    let (d, e4) = passed (not heads) _ e3 in rw (a, b, same, c, more d, e4)

check_restart_area_crowded :
    (rp : RestartPage) → check_restart_area rp ≡ true → check_restart_area (crowded_page rp) ≡ true
unfolding check_restart_area crowded_page
check_restart_area_crowded rp e =
    guards_other (ltb 510 (rp.restart_area_offset + 24))
      (not (is_aligned rp.area.client_array_offset)
        || ltb 510 (rp.restart_area_offset + rp.area.client_array_offset))
      (area_fits rp) (heads_ok rp.area) _ (area_fits (crowded_page rp))
      (heads_ok (crowded_page rp).area) e (area_fits_crowded rp) (heads_crowded rp)

-- The length of the restart area is computed in 16 bits: a page that passes the check of its restart
-- area passes it with 2048 clients more as well, a list may then lead to the client 2047, and in a
-- page of at most 64 KiB the walk of that list reads past the end of the page.
pub check_restart_area-crowded_page :
    (rp : RestartPage)
    → check_restart_area rp ≡ true
    → rp.system_page_size ≤ 2 ^ 16
    → (check_restart_area (crowded_page rp) ≡ true)
      × (2047 < (crowded_page rp).area.log_clients)
      × (client_at (crowded_page rp) 2047 ≡ none)
check_restart_area-crowded_page rp e size = (check_restart_area_crowded rp e, more, outside)
  where
    more : 2047 < (crowded_page rp).area.log_clients
    more = unfold crowded_page in omega arith

    outside : client_at (crowded_page rp) 2047 ≡ none
    outside = unfold client_at crowded_page in ground arith
