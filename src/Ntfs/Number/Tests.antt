-- ===== src/Ntfs/Number/Tests.antt =====
-- -1000 takes two bytes, and 128 takes two bytes since the top bit of one would be its sign.
use rohos_disk_browser.Prelude.{◌^◌, ◌-◌, ◌≡◌, refl, ◌∷◌, [], some, none, take, leb, arith}
use rohos_disk_browser.Ntfs.Number.{
  get_nr_significant_bytes, write_significant_bytes, bytes_loop, sar8, sar, extra_byte, sign_byte,
  stored_bytes,
}
use rohos_disk_browser.Ntfs.Number.Laws.{stored_bytes_lem, significant}

write_128 : write_significant_bytes 4 128 ≡ some (128 ∷ 0 ∷ [])
unfolding write_significant_bytes stored_bytes sign_byte bytes_loop sar8 sar extra_byte
write_128 = refl

write_minus_1000 : write_significant_bytes 2 (2 ^ 64 - 1000) ≡ some (24 ∷ 252 ∷ [])
unfolding write_significant_bytes stored_bytes sign_byte bytes_loop sar8 sar extra_byte
write_minus_1000 = refl

write_full : write_significant_bytes 1 128 ≡ none
unfolding write_significant_bytes stored_bytes sign_byte bytes_loop sar8 sar extra_byte
write_full = refl

stored_bytes_lem_example :
    stored_bytes 1 128 ≡ (take 1 (significant 128), leb (get_nr_significant_bytes 128) 1)
stored_bytes_lem_example = stored_bytes_lem 1 128 (omega arith)
