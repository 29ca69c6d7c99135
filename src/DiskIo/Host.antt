-- ===== src/DiskIo/Host.antt =====
-- What the disk access relies on of the Win32 file calls SetFilePointerEx, ReadFile and WriteFile on
-- an open file or device of fixed size.
pub mod Bytes
use rohos_disk_browser.Prelude.{
  ℕ, zero, suc, ◌+◌, ◌-◌, ◌≤◌, ◌≡◌, Bool, true, ◌&&◌, List, [], ◌∷◌, if◌then◌else◌, ltb, leb,
  length, get_or,
}

-- dwMoveMethod
pub data Method : Type 0 where
  file_begin file_current file_end : Method

-- A handle's state holds its file pointer. ReadFile returns its result and the bytes that it stored,
-- WriteFile its result and the number of bytes that it wrote.
pub record Host : Type 1 where
  pub Handle : Type 0
  pub set_pointer : Handle → ℕ → Method → Bool × Handle
  pub read_file : Handle → ℕ → Bool × List ℕ × Handle
  pub write_file : Handle → List ℕ → Bool × ℕ × Handle

-- The `n` bytes from place `p` on.
abbrev pub bytes_from : (ℕ → ℕ) → ℕ → ℕ → List ℕ
bytes_from f p zero = []
bytes_from f p (suc n) = f p ∷ bytes_from f (p + 1) n

-- The bytes of a file after a write at place `p`.
abbrev pub overwrite : (ℕ → ℕ) → ℕ → List ℕ → ℕ → ℕ
overwrite f p bs i = if leb p i && ltb i (p + length bs) then get_or bs (i - p) 0 else f i

-- The documented behaviour inside the file: a seek to a place in the file or to its end succeeds and
-- moves the pointer there, no seek changes more than the pointer, a read returns the bytes
-- at the pointer, a write replaces them, and neither changes the size.
pub record IsHost (h : Host) : Type 1 where
  pub size : h.Handle → ℕ
  pub position : h.Handle → ℕ
  pub byte_at : h.Handle → ℕ → ℕ
  pub seek_ok : (d : h.Handle) (p : ℕ) → p ≤ size d → (h.set_pointer d p file_begin).0 ≡ true
  pub seek_position :
      (d : h.Handle) (p : ℕ) → p ≤ size d → position (h.set_pointer d p file_begin).1 ≡ p
  pub seek_size : (d : h.Handle) (p : ℕ) → size (h.set_pointer d p file_begin).1 ≡ size d
  pub seek_bytes : (d : h.Handle) (p : ℕ) → byte_at (h.set_pointer d p file_begin).1 ≡ byte_at d
  pub read_ok : (d : h.Handle) (n : ℕ) → position d + n ≤ size d → (h.read_file d n).0 ≡ true
  pub read_bytes :
      (d : h.Handle) (n : ℕ)
      → position d + n ≤ size d
      → (h.read_file d n).1 ≡ bytes_from (byte_at d) (position d) n
  pub write_ok :
      (d : h.Handle) (bs : List ℕ) → position d + length bs ≤ size d → (h.write_file d bs).0 ≡ true
  pub write_count :
      (d : h.Handle) (bs : List ℕ)
      → position d + length bs ≤ size d
      → (h.write_file d bs).1 ≡ length bs
  pub write_size : (d : h.Handle) (bs : List ℕ) → size (h.write_file d bs).2 ≡ size d
  pub write_bytes :
      (d : h.Handle) (bs : List ℕ)
      → position d + length bs ≤ size d
      → byte_at (h.write_file d bs).2 ≡ overwrite (byte_at d) (position d) bs
