-- ===== src/Ntfs/Device/Pieces.antt =====
-- A device in memory that moves two bytes at most in one operation.
use rohos_disk_browser.Prelude.{
  ℕ, ◌+◌, ◌-◌, ◌≤◌, ◌<◌, ◌≡◌, ◌⊎◌, inl, inr, refl, sym, ap, ◌∙◌, min, true, false, ◌&&◌, leb, ltb,
  some, List, [], length, length-take, take, get_or, arith,
}
use rohos_disk_browser.Prelude.Store.{get_elem?-get_or}
use rohos_disk_browser.Prelude.Slices.{get_elem?-take}
use rohos_disk_browser.DiskIo.Host.{bytes_from, overwrite}
use rohos_disk_browser.DiskIo.Host.Bytes.{length-bytes_from}
use rohos_disk_browser.Ntfs.Device.{Count, done, failed, Got, got, unread, Operations}
use rohos_disk_browser.Ntfs.Device.Laws.{IsDevice}

abbrev pub pieces : Operations
pieces = record {
  Private = ℕ → ℕ;
  pread = λ s n p. (got (bytes_from s p (min n 2)), s);
  pwrite = λ s bs p. (done (min (length bs) 2), overwrite s p (take 2 bs));
}

abbrev bytes_of : Got → List ℕ
bytes_of (got bs) = bs
bytes_of (unread e) = []

abbrev number_of : Count → ℕ
number_of (done n) = n
number_of (failed e) = 0

pub overwrite-inside :
    (s : ℕ → ℕ) (p i : ℕ) (bs : List ℕ) → i < length bs → overwrite s p bs (p + i) ≡ get_or bs i 0
overwrite-inside s p i bs h = rw (after, before, place)
  where
    after : leb p (p + i) ≡ true
    after = ground arith

    before : ltb (p + i) (p + length bs) ≡ true
    before = ground arith

    place : p + i - p ≡ i
    place = omega arith

pub overwrite-outside :
    (s : ℕ → ℕ) (p j : ℕ) (bs : List ℕ) → (j < p) ⊎ (p + length bs ≤ j) → overwrite s p bs j ≡ s j
overwrite-outside s p j bs h = rw out
  where
    out : (leb p j && ltb j (p + length bs)) ≡ false
    out = ground arith

pub shorter :
    (p j : ℕ) (bs : List ℕ) → (j < p) ⊎ (p + length bs ≤ j) → (j < p) ⊎ (p + length (take 2 bs) ≤ j)
shorter p j bs (inl l) = inl l
shorter p j bs (inr r) = inr (omega (arith, length-take 2 bs))

abbrev pub pieces-IsDevice : IsDevice pieces
pieces-IsDevice = record {
  byte_at = λ s. s;
  read_count = λ s n p bs e.
      let same : bytes_from s p (min n 2) ≡ bs = ap bytes_of e in
      let number : min n 2 ≡ length bs = sym (length-bytes_from s p (min n 2)) ∙ ap length same in
      (omega (arith, number), sym same ∙ ap (bytes_from s p) number);
  read_stays = λ s n p. refl;
  write_count =
      λ s bs p k e. let number : min (length bs) 2 ≡ k = ap number_of e in omega (arith, number);
  write_puts = λ s bs p k i e lt.
      let number : min (length bs) 2 ≡ k = ap number_of e in
      let inside : i < length (take 2 bs) = omega (arith, number, length-take 2 bs) in
      sym (get_elem?-take 2 i bs (omega (arith, number)))
      ∙ get_elem?-get_or (take 2 bs) i 0 inside
      ∙ ap some (sym (overwrite-inside s p i (take 2 bs) inside));
  write_stays = λ s bs p j out. overwrite-outside s p j (take 2 bs) (shorter p j bs out);
}
