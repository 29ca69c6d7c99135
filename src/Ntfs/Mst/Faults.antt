-- ===== src/Ntfs/Mst/Faults.antt =====
-- mst.c: the detection of an incomplete transfer, the routine without checks, and a record whose
-- update sequence array ends past its memory.
use rohos_disk_browser.Prelude.{
  ℕ, zero, suc, ◌+◌, ◌*◌, ◌≤◌, ◌<◌, ◌≡◌, ◌≢◌, List, none, some, bind-none, length, get_elem?, set,
  arith,
}
use rohos_disk_browser.Prelude.Store.{store, store_lem, store-some, length-set, get_elem?-get_or}
use rohos_disk_browser.Ntfs.Mst.{
  ok, eio, next_usn, set_baad, protect_loop, protect, post_read_fixup, pre_write_fixup,
  post_write_fixup,
}
use rohos_disk_browser.Ntfs.Mst.Loops.{check_loop-torn}
use rohos_disk_browser.Ntfs.Mst.Laws.{
  HasHeader, IsProtectable, fixups-suc, bad_size_lem, half, even,
}

-- A record with a block that does not carry the number of the record is refused with EIO, and the
-- only change to its memory is the magic BAAD: wherever the array stands inside the first block.
pub post_read-torn :
    (b : List ℕ) (n u usn k w : ℕ)
    → HasHeader b n u
    → u + n < 255
    → get_elem? b u ≡ some usn
    → k < n
    → get_elem? b (255 + 256 * k) ≡ some w
    → w ≢ usn
    → post_read_fixup b (512 * n) ≡ some (eio, set (set b 0 16706) 1 17473)
unfolding post_read_fixup set_baad
post_read-torn b n u usn k w (ofs, (cnt, (lt, size))) fit number h at ne =
    let len0 = length-set b 0 16706 in
    rw (
      ofs,
      cnt,
      fixups-suc n lt,
      bad_size_lem n u lt (omega (arith, h, fit)),
      half u,
      number,
      check_loop-torn n 255 usn b k w (omega (arith, size)) h at ne,
      store_lem b 0 16706 (omega (arith, size, h)),
      store_lem (set b 0 16706) 1 17473 (omega (arith, size, h, len0)),
    )

-- Wherever the checked routine succeeds, the one without checks gives the same record.
pub post_write-post_read :
    (b b' : List ℕ) (size : ℕ)
    → post_read_fixup b size ≡ some (ok, b')
    → post_write_fixup b ≡ some b'
unfolding post_read_fixup post_write_fixup
post_write-post_read b b' size h = ground (arith, h)

overrun : (n u d usn : ℕ) (b : List ℕ) → 0 < n → length b ≤ u + n → protect_loop n u d usn b ≡ none
unfolding protect_loop
overrun zero u d usn b pos h = absurd (omega arith)
overrun (suc n) u d usn b pos h = bind-none (get_elem? b d) _ (λ w e.
    bind-none (store b (suc u) w) _ (λ b1 e1. bind-none (store b1 d usn) _ (λ b2 e2.
      let in1 = store-some b b1 (suc u) w e1 in
      let in2 = store-some b1 b2 d usn e2 in
      overrun n (suc u) (d + 256) usn b2 (omega (arith, h, in1.0))
        (omega (arith, h, in1.1, in2.1)))))

protect-none : (b : List ℕ) (n u : ℕ) → 0 < n → length b ≤ u + n → protect b (2 * u) n ≡ none
unfolding protect
protect-none b n u pos h =
    let twice = half u in
    rw twice (
      bind-none (get_elem? b u) _ (λ old e. bind-none (store b u (next_usn old)) _ (λ b1 e1.
        let in1 = store-some b b1 u (next_usn old) e1 in
        rw (overrun n u 255 (next_usn old) b1 pos (omega (arith, h, in1.1))))))

-- The check of `ntfs_mst_pre_write_fixup` lets an array through that ends one word past the record:
-- for a record of `n` blocks with usa_ofs + 2 * n at its size, it writes past the end.
pub pre_write_past_end :
    (b : List ℕ) (n u : ℕ)
    → HasHeader b n u
    → IsProtectable b
    → 0 < n
    → 2 * u + 2 * n ≡ 512 * n
    → pre_write_fixup (some b) (512 * n) ≡ none
unfolding pre_write_fixup
pre_write_past_end b n u (ofs, (cnt, (lt, size))) free pos last = rw (
  get_elem?-get_or b 0 0 (omega (arith, size, pos)),
  get_elem?-get_or b 1 0 (omega (arith, size, pos)),
  ofs,
  cnt,
  fixups-suc n lt,
  free,
  even u,
  bad_size_lem n u lt (omega (arith, last)),
  protect-none b n u pos (omega (arith, size, last)),
)
