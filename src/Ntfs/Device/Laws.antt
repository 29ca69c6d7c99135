-- ===== src/Ntfs/Device/Laws.antt =====
-- filesys/ntfs/device.c: what is asked of the operations of a device, and what the turns of the two
-- loops are, each with one equation.
use rohos_disk_browser.Prelude.{
  ℕ, suc, ◌+◌, ◌-◌, ◌^◌, ◌≤◌, ◌<◌, ◌≡◌, ◌⊎◌, refl, Bool, true, false, ◌==◌, if◌then◌else◌, some,
  List, length, take, drop, get_elem?, arith,
}
use rohos_disk_browser.DiskIo.Host.{bytes_from}
use rohos_disk_browser.Ntfs.Runs.{add64, sub64}
use rohos_disk_browser.Ntfs.Device.{
  done, got, Operations, read_turn, write_turn, read_loop, write_loop,
}

-- What each operation promises: a read stores bytes of its range from the start on, not more than it
-- was asked for, and changes nothing. A write leaves all outside its range as it was, and the
-- bytes that it counts are written, however it ends.
pub record IsDevice (d_ops : Operations) : Type 1 where
  pub byte_at : d_ops.Private → ℕ → ℕ
  pub read_count :
      (s : d_ops.Private) (n p : ℕ) (bs : List ℕ)
      → (d_ops.pread s n p).0 ≡ got bs
      → (length bs ≤ n) × (bs ≡ bytes_from (byte_at s) p (length bs))
  pub read_stays : (s : d_ops.Private) (n p : ℕ) → byte_at (d_ops.pread s n p).1 ≡ byte_at s
  pub write_count :
      (s : d_ops.Private) (bs : List ℕ) (p k : ℕ) → (d_ops.pwrite s bs p).0 ≡ done k → k ≤ length bs
  pub write_puts :
      (s : d_ops.Private) (bs : List ℕ) (p k i : ℕ)
      → (d_ops.pwrite s bs p).0 ≡ done k
      → i < k
      → get_elem? bs i ≡ some (byte_at (d_ops.pwrite s bs p).1 (p + i))
  pub write_stays :
      (s : d_ops.Private) (bs : List ℕ) (p j : ℕ)
      → (j < p) ⊎ (p + length bs ≤ j)
      → byte_at (d_ops.pwrite s bs p).1 j ≡ byte_at s j

pub if-false {ℓ} : {A : Type ℓ} (b : Bool) (x y : A) → b ≡ false → (if b then x else y) ≡ y
if-false b x y e = rw e

pub if-true {ℓ} : {A : Type ℓ} (b : Bool) (x y : A) → b ≡ true → (if b then x else y) ≡ x
if-true b x y e = rw e

pub add64_small : (a b : ℕ) → a + b < 2 ^ 63 → add64 a b ≡ a + b
add64_small a b h = omega arith

pub sub64_small : (a b : ℕ) → a < 2 ^ 63 → b ≤ a → sub64 a b ≡ a - b
sub64_small a b h k = omega arith

module _ (d_ops : Operations) where
  pub read_loop_end :
      (n pos : ℕ) (s : d_ops.Private) (b : List ℕ)
      → read_loop d_ops (suc n) pos s 0 b ≡ some (got b, s)
  unfolding read_loop
  read_loop_end n pos s b = refl

  pub read_loop_turn :
      (n pos : ℕ) (s : d_ops.Private) (count : ℕ) (b : List ℕ)
      → 0 < count
      → pos + length b < 2 ^ 63
      → read_loop d_ops (suc n) pos s count b
        ≡ read_turn (read_loop d_ops n pos) count b (d_ops.pread s count (pos + length b))
  unfolding read_loop
  read_loop_turn n pos s count b more h =
      let left : (count == 0) ≡ false = ground arith in
      rw (left, read_loop) (rw (add64_small pos (length b) h))

  pub write_loop_end :
      (n pos : ℕ) (b : List ℕ) (s : d_ops.Private) (total : ℕ)
      → write_loop d_ops (suc n) pos b s 0 total ≡ some (done total, s)
  unfolding write_loop
  write_loop_end n pos b s total = refl

  pub write_loop_turn :
      (n pos : ℕ) (b : List ℕ) (s : d_ops.Private) (count total : ℕ)
      → 0 < count
      → pos + total < 2 ^ 63
      → write_loop d_ops (suc n) pos b s count total
        ≡ write_turn
            (write_loop d_ops n pos b)
            count
            total
            (d_ops.pwrite s (take count (drop total b)) (pos + total))
  unfolding write_loop
  write_loop_turn n pos b s count total more h =
      let left : (count == 0) ≡ false = ground arith in
      rw (left, write_loop) (rw (add64_small pos total h))
