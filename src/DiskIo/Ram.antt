-- ===== src/DiskIo/Ram.antt =====
-- A file of fixed size in memory, which behaves as documented.
use rohos_disk_browser.Prelude.{
  ℕ, ◌≡◌, ◌≤◌, List, ◌+◌, ◌-◌, refl, ap, min, true, length, take, take-length, arith,
}
use rohos_disk_browser.DiskIo.Host.{
  Host, IsHost, Method, file_begin, file_current, file_end, bytes_from, overwrite,
}

pub record Ram : Type 0 where
  pub size : ℕ
  pub position : ℕ
  pub cell : ℕ → ℕ

abbrev target : Ram → ℕ → Method → ℕ
target r p file_begin = p
target r p file_current = r.position + p
target r p file_end = r.size + p

abbrev pub ram : Host
ram = record {
  Handle = Ram;
  set_pointer = λ r p m. (true, record r { position = target r p m });
  read_file = λ r n.
      let k = min n (r.size - r.position) in
      (true, bytes_from r.cell r.position k, record r { position = r.position + k });
  write_file = λ r bs.
      let k = min (length bs) (r.size - r.position) in
      (
        true,
        k,
        record r { position = r.position + k; cell = overwrite r.cell r.position (take k bs) },
      );
}

pub room : (n p s : ℕ) → p + n ≤ s → min n (s - p) ≡ n
room n p s h = omega arith

pub room_for : (bs : List ℕ) (p s : ℕ) → p + length bs ≤ s → length bs ≡ min (length bs) (s - p)
room_for bs p s h = omega arith

abbrev pub ram-IsHost : IsHost ram
ram-IsHost = record {
  size = λ r. r.size;
  position = λ r. r.position;
  byte_at = λ r. r.cell;
  seek_ok = λ r p h. refl;
  seek_position = λ r p h. refl;
  seek_size = λ r p. refl;
  seek_bytes = λ r p. refl;
  read_ok = λ r n h. refl;
  read_bytes = λ r n h. ap (bytes_from r.cell r.position) (room n r.position r.size h);
  write_ok = λ r bs h. refl;
  write_count = λ r bs h. room (length bs) r.position r.size h;
  write_size = λ r bs. refl;
  write_bytes = λ r bs h.
      ap (overwrite r.cell r.position) (take-length _ bs (room_for bs r.position r.size h));
}
