-- ===== src/Ntfs/Mst/Tests.antt =====
-- A file record of two blocks, and a record whose update sequence array ends past its memory.
use rohos_disk_browser.Prelude.{
  ℕ, ◌+◌, ◌*◌, ◌≡◌, refl, ap, inr, List, ◌∷◌, none, some, length, length-replicate, replicate,
  get_elem?, set, arith,
}
use rohos_disk_browser.Ntfs.Mst.{
  ok, eio, next_usn, is_unprotectable, post_read_fixup, pre_write_fixup,
}
use rohos_disk_browser.Ntfs.Mst.Laws.{HasHeader, IsProtectable, post_read-pre_write}
use rohos_disk_browser.Ntfs.Mst.Faults.{post_read-torn, pre_write_past_end}

abbrev file_record : List ℕ
file_record = 18758 ∷ 17740 ∷ 8 ∷ 3 ∷ 7 ∷ replicate 507 9

abbrev overlong : List ℕ
overlong = 18758 ∷ 17740 ∷ 510 ∷ 2 ∷ replicate 252 9

file_record_header : HasHeader file_record 2 4
file_record_header = (refl, (refl, (omega arith, ap (λ n. 5 + n) (length-replicate {A = ℕ} 507 9))))

overlong_header : HasHeader overlong 1 255
overlong_header = (refl, (refl, (omega arith, ap (λ n. 4 + n) (length-replicate {A = ℕ} 252 9))))

file_record-IsProtectable : IsProtectable file_record
unfolding is_unprotectable
file_record-IsProtectable = refl

overlong-IsProtectable : IsProtectable overlong
unfolding is_unprotectable
overlong-IsProtectable = refl

post_read-pre_write_example :
    (disk : List ℕ) × ((again : List ℕ) × ((pre_write_fixup (some file_record) (512 * 2)
          ≡ some (ok, disk))
        × ((post_read_fixup disk (512 * 2) ≡ some (ok, again))
            × ((length again ≡ length file_record)
                × ((get_elem? again 4 ≡ some (next_usn 7))
                    × (get_elem? again 255 ≡ get_elem? file_record 255))))))
post_read-pre_write_example =
    post_read-pre_write file_record 2 4 7 255 file_record_header file_record-IsProtectable
      (omega arith, omega arith) refl (inr (omega arith))

post_read-torn_example :
    post_read_fixup file_record (512 * 2) ≡ some (eio, set (set file_record 0 16706) 1 17473)
post_read-torn_example =
    post_read-torn file_record 2 4 7 1 9 file_record_header (omega arith) refl (omega arith) refl
      (omega arith)

pre_write_past_end_example : pre_write_fixup (some overlong) (512 * 1) ≡ none
pre_write_past_end_example =
    pre_write_past_end overlong 1 255 overlong_header overlong-IsProtectable (omega arith)
      (omega arith)
