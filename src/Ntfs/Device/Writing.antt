-- ===== src/Ntfs/Device/Writing.antt =====
-- filesys/ntfs/device.c: the write loop. It ends within as many turns as there are bytes to write,
-- since each turn that goes on writes one byte at least.
use rohos_disk_browser.Prelude.{
  ℕ, zero, suc, ◌+◌, ◌-◌, ◌^◌, ◌≤◌, ◌<◌, ◌≡◌, ◌⊎◌, inl, inr, refl, sym, ap, ◌∙◌, Option, some, List,
  length, length-take, length-drop, take, drop, get_elem?, arith,
}
use rohos_disk_browser.Prelude.Slices.{get_elem?-slice}
use rohos_disk_browser.Ntfs.Device.{Count, done, failed, Operations, write_turn, write_loop}
use rohos_disk_browser.Ntfs.Device.Laws.{
  IsDevice, add64_small, sub64_small, write_loop_end, write_loop_turn,
}

module _ (d_ops : Operations) (h : IsDevice d_ops) where
  -- From a device `s` to `s'`: nothing outside the `n` bytes from `p` on was changed.
  abbrev pub Stays : d_ops.Private → d_ops.Private → ℕ → ℕ → Type 0
  Stays s s' p n = (j : ℕ) → (j < p) ⊎ (p + n ≤ j) → h.byte_at s' j ≡ h.byte_at s j

  -- The bytes of the buffer from `from` to `to` are on the device, for the place `p`.
  abbrev pub Puts : d_ops.Private → ℕ → List ℕ → ℕ → ℕ → Type 0
  Puts s p b from to = (i : ℕ) → from ≤ i → i < to → get_elem? b i ≡ some (h.byte_at s (p + i))

  -- The number that the loop returns, with `count` bytes to write after `total`.
  abbrev pub IsWritten : d_ops.Private → ℕ → List ℕ → ℕ → ℕ → Count → Type 0
  IsWritten s' p b count total (done t) = (total ≤ t) × (t ≤ total + count) × Puts s' p b total t
  IsWritten s' p b count total (failed e) = total ≡ 0

  -- One operation, given the `count` bytes `bs` of the buffer from `total` on.
  module _ (p : ℕ) (b : List ℕ) (s : d_ops.Private) (count total : ℕ) (bs : List ℕ) where
    turn-Stays : length bs ≡ count → Stays s (d_ops.pwrite s bs (p + total)).1 (p + total) count
    turn-Stays all j (inl l) = h.write_stays s bs (p + total) j (inl l)
    turn-Stays all j (inr r) = h.write_stays s bs (p + total) j (inr (omega arith))

    turn-Puts :
        (k : ℕ)
        → ((i : ℕ) → i < count → get_elem? bs i ≡ get_elem? b (total + i))
        → length bs ≡ count
        → (d_ops.pwrite s bs (p + total)).0 ≡ done k
        → (k ≤ count) × Puts (d_ops.pwrite s bs (p + total)).1 p b total (total + k)
    turn-Puts k same all e = (few, puts)
      where
        few : k ≤ count
        few = omega (arith, h.write_count s bs (p + total) k e)

        puts : Puts (d_ops.pwrite s bs (p + total)).1 p b total (total + k)
        puts i l u =
            ap (get_elem? b) place
            ∙ sym (same (i - total) (omega (arith, few)))
            ∙ h.write_puts s bs (p + total) k (i - total) e (omega arith)
            ∙ ap (λ j. some (h.byte_at (d_ops.pwrite s bs (p + total)).1 j)) there
          where
            place : i ≡ total + (i - total)
            place = omega arith

            there : p + total + (i - total) ≡ p + i
            there = omega arith

  Stays-later :
      (s s1 s2 : d_ops.Private) (p count k : ℕ)
      → k ≤ count
      → Stays s s1 p count
      → Stays s1 s2 (p + k) (count - k)
      → Stays s s2 p count
  Stays-later s s1 s2 p count k few one two j (inl l) = two j (inl (omega arith)) ∙ one j (inl l)
  Stays-later s s1 s2 p count k few one two j (inr r) = two j (inr (omega arith)) ∙ one j (inr r)

  -- The bytes of one operation are still there after the ones that follow.
  Puts-later :
      (s1 s2 : d_ops.Private) (p : ℕ) (b : List ℕ) (total k count t : ℕ)
      → Puts s1 p b total (total + k)
      → Stays s1 s2 (p + (total + k)) count
      → Puts s2 p b (total + k) t
      → Puts s2 p b total t
  Puts-later s1 s2 p b total k count t one stays two i l u = elim (split i) [
    | inl early ↦ one i l early ∙ ap some (sym (stays (p + i) (inl (omega (arith, early)))))
    | inr late ↦ two i late u
  ]
    where
      split : (i : ℕ) → (i < total + k) ⊎ (total + k ≤ i)
      split i = omega arith

  Stays-at : (s s' : d_ops.Private) (p q n : ℕ) → p ≡ q → Stays s s' p n → Stays s s' q n
  Stays-at s s' p q n e stays j out =
      stays j (elim out [ inl l ↦ inl (omega arith) | inr r ↦ inr (omega arith) ])

  IsWritten-later :
      (s1 s2 : d_ops.Private) (p : ℕ) (b : List ℕ) (count total m : ℕ)
      → m ≤ count
      → 0 < m
      → Puts s1 p b total (total + m)
      → Stays s1 s2 (p + (total + m)) (count - m)
      → (r : Count) → IsWritten s2 p b (count - m) (total + m) r
      → IsWritten s2 p b count total r
  IsWritten-later s1 s2 p b count total m few some_put now stays (done t) (l, u, puts) =
      (omega arith, omega arith, Puts-later s1 s2 p b total m (count - m) t now stays puts)
  IsWritten-later s1 s2 p b count total m few some_put now stays (failed e) none_put =
      absurd (omega arith)

  -- What the loop returns when the turn reaches no other.
  abbrev pub Result : ℕ → List ℕ → d_ops.Private → ℕ → ℕ → Option (Count × d_ops.Private) → Type 0
  Result p b s count total o =
      (r : Count) × (s' : d_ops.Private) × (o ≡ some (r, s'))
      × Stays s s' (p + total) count
      × IsWritten s' p b count total r

  nothing_put : (s : d_ops.Private) (p : ℕ) (b : List ℕ) (total : ℕ) → Puts s p b total total
  nothing_put s p b total i l u = absurd (omega arith)

  ended :
      (p : ℕ) (b : List ℕ) (s s1 : d_ops.Private) (count total : ℕ)
      → Stays s s1 (p + total) count
      → Result p b s count total (some (done total, s1))
  ended p b s s1 count total stays =
      (done total, s1, refl, stays, (omega arith, omega arith, nothing_put s1 p b total))

  -- The turn that a result of one operation makes, where what follows it is known.
  turn :
      (k : d_ops.Private → ℕ → ℕ → Option (Count × d_ops.Private)) (p : ℕ) (b : List ℕ)
      (s s1 : d_ops.Private) (count total : ℕ) (c : Count)
      → count < 2 ^ 63
      → total + count < 2 ^ 63
      → Stays s s1 (p + total) count
      → ((m : ℕ) → c ≡ done m → (m ≤ count) × Puts s1 p b total (total + m))
      → ((m : ℕ)
          → 0 < m
          → m ≤ count
          → Result p b s1 (count - m) (total + m) (k s1 (count - m) (total + m)))
      → Result p b s count total (write_turn k count total (c, s1))
  unfolding write_turn
  turn k p b s s1 count total (done zero) small fits stays puts next =
      ended p b s s1 count total stays
  turn k p b s s1 count zero (failed e) small fits stays puts next =
      (failed e, s1, refl, stays, refl)
  turn k p b s s1 count (suc total) (failed e) small fits stays puts next =
      ended p b s s1 count (suc total) stays
  turn k p b s s1 count total (done (suc m)) small fits stays puts next =
      let (few, now) = puts (suc m) refl in
      let (r, s2, e, stays2, written) = next (suc m) (omega arith) few in
      (
        r,
        s2,
        rw (sub64_small count (suc m) small few, add64_small total (suc m) (omega (arith, few))) e,
        Stays-later s s1 s2 (p + total) count (suc m) few stays (
            Stays-at s1 s2 (p + (total + suc m)) (p + total + suc m) (count - suc m) (omega arith)
              stays2),
        IsWritten-later s1 s2 p b count total (suc m) few (omega arith) now stays2 r written,
      )

  pub write_loop_lem :
      (n p : ℕ) (b : List ℕ) (s : d_ops.Private) (count total : ℕ)
      → count ≤ n
      → total + count ≤ length b
      → p + (total + count) < 2 ^ 63
      → Result p b s count total (write_loop d_ops (suc n) p b s count total)
  write_loop_lem n p b s zero total fuel enough small =
      let (r, s1, e, stays, written) = ended p b s s 0 total (λ j out. refl) in
      (r, s1, write_loop_end d_ops n p b s total ∙ e, stays, written)
  write_loop_lem zero p b s (suc c) total fuel enough small = absurd (omega arith)
  write_loop_lem (suc n) p b s (suc c) total fuel enough small =
      let bs = take (suc c) (drop total b) in
      let all : length bs ≡ suc c =
        omega (arith, length-take (suc c) (drop total b), length-drop total b) in
      let x = d_ops.pwrite s bs (p + total) in
      let (r, s1, e, stays, written) =
        turn (write_loop d_ops (suc n) p b) p b s x.1 (suc c) total x.0 (omega arith) (omega arith)
          (turn-Stays p b s (suc c) total bs all)
          (λ m. turn-Puts p b s (suc c) total bs m (λ i l. get_elem?-slice (suc c) total i b l) all)
          (λ m some_put few.
            write_loop_lem n p b x.1 (suc c - m) (total + m) (omega arith) (omega arith)
              (omega arith)) in
      (
        r,
        s1,
        write_loop_turn d_ops (suc n) p b s (suc c) total (omega arith) (omega arith) ∙ e,
        stays,
        written,
      )
