-- ===== src/Ntfs/Device/Reading.antt =====
-- filesys/ntfs/device.c: the read loop. It ends within as many turns as there are bytes to read,
-- since each turn that goes on reads one byte at least.
use rohos_disk_browser.Prelude.{
  ℕ, zero, suc, ◌+◌, ◌-◌, ◌^◌, ◌≤◌, ◌<◌, ◌≡◌, refl, sym, ap, ap₂, ◌∙◌, Option, some, List, [], ◌∷◌,
  ◌++◌, length, length-append, arith,
}
use rohos_disk_browser.DiskIo.Host.{bytes_from}
use rohos_disk_browser.Ntfs.Device.{Got, got, unread, Operations, read_turn, read_loop}
use rohos_disk_browser.Ntfs.Device.Laws.{IsDevice, sub64_small, read_loop_end, read_loop_turn}

bytes_from-append :
    (f : ℕ → ℕ) (p m n : ℕ) → bytes_from f p m ++ bytes_from f (p + m) n ≡ bytes_from f p (m + n)
bytes_from-append f p zero n = ap₂ (bytes_from f) (omega arith) (omega arith)
bytes_from-append f p (suc m) n =
    ap (λ q. f p ∷ (bytes_from f (p + 1) m ++ bytes_from f q n)) place
    ∙ ap (λ bs. f p ∷ bs) (bytes_from-append f (p + 1) m n)
    ∙ ap (bytes_from f p) number
  where
    place : p + suc m ≡ p + 1 + m
    place = omega arith

    number : suc (m + n) ≡ suc m + n
    number = omega arith

module _ (d_ops : Operations) (h : IsDevice d_ops) where
  -- The bytes are those of the device from `p` on.
  abbrev pub AreAt : d_ops.Private → ℕ → List ℕ → Type 0
  AreAt s p bs = bs ≡ bytes_from (h.byte_at s) p (length bs)

  abbrev pub IsRead : d_ops.Private → ℕ → List ℕ → ℕ → Got → Type 0
  IsRead s p b count (got bs) =
      (length b ≤ length bs) × (length bs ≤ length b + count) × AreAt s p bs
  IsRead s p b count (unread e) = length b ≡ 0

  -- What the loop returns with `b` in the buffer and `count` bytes to read.
  abbrev pub Result : ℕ → d_ops.Private → ℕ → List ℕ → Option (Got × d_ops.Private) → Type 0
  Result p s count b o =
      (r : Got) × (s' : d_ops.Private) × (o ≡ some (r, s'))
      × (h.byte_at s' ≡ h.byte_at s)
      × IsRead s p b count r

  AreAt-append :
      (s : d_ops.Private) (p : ℕ) (b bs : List ℕ)
      → AreAt s p b
      → AreAt s (p + length b) bs
      → AreAt s p (b ++ bs)
  AreAt-append s p b bs e f =
      ap₂ (λ xs ys. xs ++ ys) e f
      ∙ bytes_from-append (h.byte_at s) p (length b) (length bs)
      ∙ ap (bytes_from (h.byte_at s) p) (sym (length-append b bs))

  IsRead-later :
      (s s1 : d_ops.Private) (p count : ℕ) (b bs : List ℕ)
      → h.byte_at s1 ≡ h.byte_at s
      → length bs ≤ count
      → 0 < length bs
      → (r : Got) → IsRead s1 p (b ++ bs) (count - length bs) r
      → IsRead s p b count r
  IsRead-later s s1 p count b bs same few some_read (got xs) (l, u, are) = (
    omega (arith, l, length-append b bs),
    omega (arith, u, length-append b bs),
    are ∙ ap (λ f. bytes_from f p (length xs)) same,
  )
  IsRead-later s s1 p count b bs same few some_read (unread e) none_read =
      absurd (omega (arith, none_read, length-append b bs))

  -- The turn that a result of one operation makes, where what follows it is known.
  turn :
      (k : d_ops.Private → ℕ → List ℕ → Option (Got × d_ops.Private)) (p : ℕ) (s s1 : d_ops.Private)
      (count : ℕ) (b : List ℕ) (c : Got)
      → count < 2 ^ 63
      → AreAt s p b
      → h.byte_at s1 ≡ h.byte_at s
      → ((bs : List ℕ) → c ≡ got bs → (length bs ≤ count) × AreAt s (p + length b) bs)
      → ((bs : List ℕ)
          → 0 < length bs
          → length bs ≤ count
          → AreAt s (p + length b) bs
          → Result p s1 (count - length bs) (b ++ bs) (k s1 (count - length bs) (b ++ bs)))
      → Result p s count b (read_turn k count b (c, s1))
  unfolding read_turn
  turn k p s s1 count b (got []) small are same bytes next =
      (got b, s1, refl, same, (omega arith, omega arith, are))
  turn k p s s1 count [] (unread e) small are same bytes next = (unread e, s1, refl, same, refl)
  turn k p s s1 count (y ∷ ys) (unread e) small are same bytes next =
      (got (y ∷ ys), s1, refl, same, (omega arith, omega arith, are))
  turn k p s s1 count b (got (c ∷ cs)) small are same bytes next =
      let (few, here) = bytes (c ∷ cs) refl in
      let (r, s2, e, same2, read) = next (c ∷ cs) (omega arith) few here in
      (
        r,
        s2,
        rw (sub64_small count (length (c ∷ cs)) small few) e,
        same2 ∙ same,
        IsRead-later s s1 p count b (c ∷ cs) same few (omega arith) r read,
      )

  pub read_loop_lem :
      (n p : ℕ) (s : d_ops.Private) (count : ℕ) (b : List ℕ)
      → count ≤ n
      → p + (length b + count) < 2 ^ 63
      → AreAt s p b
      → Result p s count b (read_loop d_ops (suc n) p s count b)
  read_loop_lem n p s zero b fuel small are =
      (got b, s, read_loop_end d_ops n p s b, refl, (omega arith, omega arith, are))
  read_loop_lem zero p s (suc c) b fuel small are = absurd (omega arith)
  read_loop_lem (suc n) p s (suc c) b fuel small are =
      let x = d_ops.pread s (suc c) (p + length b) in
      let same : h.byte_at x.1 ≡ h.byte_at s = h.read_stays s (suc c) (p + length b) in
      let (r, s1, e, stays, read) =
        turn (read_loop d_ops (suc n) p) p s x.1 (suc c) b x.0 (omega arith) are same
          (λ bs. h.read_count s (suc c) (p + length b) bs)
          (λ bs some_read few here.
            read_loop_lem n p x.1 (suc c - length bs) (b ++ bs) (omega arith)
              (omega (arith, length-append b bs))
              (AreAt-append s p b bs are here
                ∙ ap (λ f. bytes_from f p (length (b ++ bs))) (sym same))) in
      (
        r,
        s1,
        read_loop_turn d_ops (suc n) p s (suc c) b (omega arith) (omega arith) ∙ e,
        stays,
        read,
      )
