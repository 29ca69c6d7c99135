-- ===== src/Ntfs/Journal/Clients.antt =====
-- The walk of the lists of log clients.
use rohos_disk_browser.Prelude.{
  ℕ, zero, suc, ◌+◌, ◌*◌, ◌<◌, ◌≤◌, ◌≡◌, ◌≢◌, ◌↔◌, refl, ap, ◌∙◌, inl, inr, List, [], ◌∷◌, some,
  Bool, true, false, not, ◌&&◌, leb, ◌==◌, length, arith, Bool-cases,
}
use rohos_disk_browser.Ntfs.Journal.{
  RestartPage, no_client, client_size, client_at, Walk, through, corrupt, walk_list, on_through,
  check_log_client_array,
}

-- The indexes of a list of clients, by their links.
pub data Chain (rp : RestartPage) : ℕ → List ℕ → Type 0 where
  ended : (idx : ℕ) → idx ≡ no_client → Chain rp idx []
  linked :
      (idx : ℕ) (xs : List ℕ)
      → idx ≢ no_client
      → idx < rp.area.log_clients
      → Chain rp (rp.clients idx).next_client xs
      → Chain rp idx (idx ∷ xs)

-- A list that begins with a client without a predecessor.
abbrev pub HeadIsFirst : RestartPage → List ℕ → Type 0
HeadIsFirst rp [] = Unit
HeadIsFirst rp (x ∷ xs) = (rp.clients x).prev_client ≡ no_client

-- A list from `idx` on that begins with its first client, where that is asked for.
abbrev pub IsList : RestartPage → Bool → ℕ → List ℕ → Type 0
IsList rp first idx xs = Chain rp idx xs × (first ≡ true → HeadIsFirst rp xs)

-- The free list and the list in use, with no more clients in both than there are.
abbrev pub HasLists : RestartPage → Type 0
HasLists rp =
    (xs : List ℕ) × (ys : List ℕ) × IsList rp true rp.area.client_free_list xs
    × IsList rp true rp.area.client_in_use_list ys
    × (length xs + length ys ≤ rp.area.log_clients)

abbrev pub ClientsInPage : RestartPage → Type 0
ClientsInPage rp =
    rp.restart_area_offset + rp.area.client_array_offset + rp.area.log_clients * client_size
    ≤ rp.system_page_size

module _ (rp : RestartPage) (inside : ClientsInPage rp) where
  in_page : (idx : ℕ) → idx < rp.area.log_clients → client_at rp idx ≡ some (rp.clients idx)
  unfolding client_at
  in_page idx h = ground arith

  module _ (n idx : ℕ) (first : Bool) where
    walk_end : idx ≡ no_client → walk_list rp (suc n) idx first ≡ some (through (suc n))
    unfolding walk_list
    walk_end e = ground arith

    walk_past :
        idx ≢ no_client → rp.area.log_clients ≤ idx → walk_list rp (suc n) idx first ≡ some corrupt
    unfolding walk_list
    walk_past d e = ground arith

    walk_on :
        idx ≢ no_client
        → idx < rp.area.log_clients
        → (first && not ((rp.clients idx).prev_client == no_client)) ≡ false
        → walk_list rp (suc n) idx first ≡ walk_list rp n (rp.clients idx).next_client false
    unfolding walk_list
    walk_on d h e = ground (arith, in_page idx h)

    walk_no_first :
        idx ≢ no_client
        → idx < rp.area.log_clients
        → (first && not ((rp.clients idx).prev_client == no_client)) ≡ true
        → walk_list rp (suc n) idx first ≡ some corrupt
    unfolding walk_list
    walk_no_first d h e = ground (arith, in_page idx h)

  -- What a walk with `n` clients left tells.
  abbrev Tells : ℕ → Bool → ℕ → Walk → Type 0
  Tells n first idx (through left) = (xs : List ℕ) × IsList rp first idx xs × (left + length xs ≡ n)
  Tells n first idx corrupt = (xs : List ℕ) → IsList rp first idx xs → n < length xs

  no_list_past :
      (n idx : ℕ) (first : Bool)
      → idx ≢ no_client
      → rp.area.log_clients ≤ idx
      → Tells n first idx corrupt
  no_list_past n idx first d h xs (ended _ e, first_ok) = absurd (d e)
  no_list_past n idx first d h xs (linked _ ys _ lt c, first_ok) = absurd (omega arith)

  no_list_first :
      (n idx : ℕ) (first : Bool)
      → idx ≢ no_client
      → (first && not ((rp.clients idx).prev_client == no_client)) ≡ true
      → Tells n first idx corrupt
  no_list_first n idx first d h xs (ended _ e, first_ok) = absurd (d e)
  no_list_first n idx true d h xs (linked _ ys _ lt c, first_ok) =
      let none_before = first_ok refl in ground arith
  no_list_first n idx false d h xs (linked _ ys _ lt c, first_ok) = cc

  not_first : (xs : List ℕ) → false ≡ true → HeadIsFirst rp xs
  not_first xs e = absurd (cc)

  -- The walk goes on with the client at `idx`.
  Tells-on :
      (n idx : ℕ) (first : Bool) (w : Walk)
      → idx ≢ no_client
      → idx < rp.area.log_clients
      → (first && not ((rp.clients idx).prev_client == no_client)) ≡ false
      → Tells n false (rp.clients idx).next_client w
      → Tells (suc n) first idx w
  Tells-on n idx first (through left) d h e (xs, (c, _), count) =
      (idx ∷ xs, (linked idx xs d h c, head), omega arith)
    where
      head : first ≡ true → (rp.clients idx).prev_client ≡ no_client
      head f = ground arith
  Tells-on n idx first corrupt d h e none_after = further
    where
      further : (xs : List ℕ) → IsList rp first idx xs → suc n < length xs
      further xs (ended _ e', first_ok) = absurd (d e')
      further xs (linked _ ys _ _ c, first_ok) =
          let more : n < length ys = none_after ys (c, not_first ys) in omega arith

  -- Every walk ends: with the list, and the clients that are left then, or where there is none of
  -- at most `n` clients.
  pub walk_list_lem :
      (n idx : ℕ) (first : Bool)
      → (w : Walk) × (walk_list rp n idx first ≡ some w) × Tells n first idx w
  walk_list_lem zero idx first = elim (Bool-cases (idx == no_client)) [
    | inl end ↦
        let e : idx ≡ no_client = ground arith in
        (through 0, unfold walk_list in rw end, ([], (ended idx e, λ f. tt), omega arith))
    | inr on ↦ (corrupt, unfold walk_list in rw on, λ xs l. no_clients xs (ground arith) l)
  ]
    where
      no_clients : (xs : List ℕ) → idx ≢ no_client → IsList rp first idx xs → 0 < length xs
      no_clients xs d (ended _ e, first_ok) = absurd (d e)
      no_clients xs d (linked _ ys _ _ c, first_ok) = omega arith
  walk_list_lem (suc n) idx first = elim (Bool-cases (idx == no_client)) [
    | inl end ↦
        let e : idx ≡ no_client = ground arith in
        (through (suc n), walk_end n idx first e, ([], (ended idx e, λ f. tt), omega arith))
    | inr on ↦
        let d : idx ≢ no_client = ground arith in
        elim (Bool-cases (leb rp.area.log_clients idx)) [
          | inl past ↦
              let ge : rp.area.log_clients ≤ idx = ground arith in
              (corrupt, walk_past n idx first d ge, no_list_past (suc n) idx first d ge)
          | inr near ↦
              let lt : idx < rp.area.log_clients = ground arith in
              elim (Bool-cases (first && not ((rp.clients idx).prev_client == no_client))) [
                | inl e ↦
                    (corrupt, walk_no_first n idx first d lt e, no_list_first (suc n) idx first d e)
                | inr e ↦
                    let (w, eq, tells) = walk_list_lem n (rp.clients idx).next_client false in
                    (w, walk_on n idx first d lt e ∙ eq, Tells-on n idx first w d lt e tells)
              ]
        ]
  ]

  Chain-unique :
      (idx : ℕ) (xs ys : List ℕ) → Chain rp idx xs → Chain rp idx ys → length xs ≡ length ys
  Chain-unique idx xs ys (ended _ e) (ended _ f) = refl
  Chain-unique idx xs ys (ended _ e) (linked _ _ d _ _) = absurd (d e)
  Chain-unique idx xs ys (linked _ _ d _ _) (ended _ f) = absurd (d f)
  Chain-unique idx xs ys (linked _ xs' _ _ c) (linked _ ys' _ _ c') =
      ap suc (Chain-unique (rp.clients idx).next_client xs' ys' c c')

-- Where the client array lies in the page, the check of it ends and reads nothing outside of the page,
-- and it answers TRUE just where the free list and the list in use are lists inside the array that end,
-- begin with a client without a predecessor, and together have at most as many clients as the array.
pub check_log_client_array_lem :
    (rp : RestartPage)
    → ClientsInPage rp
    → (b : Bool) × (check_log_client_array rp ≡ some b) × ((b ≡ true) ↔ HasLists rp)
unfolding check_log_client_array
check_log_client_array_lem rp inside =
    let (w, e, t) = walk_list_lem rp inside rp.area.log_clients rp.area.client_free_list true in
    rw e (second w t)
  where
    third :
        (left : ℕ) (xs : List ℕ)
        → IsList rp true rp.area.client_free_list xs
        → left + length xs ≡ rp.area.log_clients
        → (w : Walk) → Tells rp inside left true rp.area.client_in_use_list w
        → (b : Bool) × (on_through (some w) (λ left'. some true) ≡ some b)
          × ((b ≡ true) ↔ HasLists rp)
    third left xs l count (through left') (ys, l', count') =
        (true, refl, ((λ _. (xs, ys, l, l', omega arith)), (λ _. refl)))
    third left xs l count corrupt none_there = (false, refl, ((λ e. cc), none_fits))
      where
        none_fits : HasLists rp → false ≡ true
        none_fits (xs', ys', k, k', fits) =
            let same = Chain-unique rp inside rp.area.client_free_list xs xs' l.0 k.0 in
            let more = none_there ys' k' in absurd (omega arith)

    second :
        (w : Walk)
        → Tells rp inside rp.area.log_clients true rp.area.client_free_list w
        → (b : Bool) × (on_through (some w) (λ left.
              on_through (walk_list rp left rp.area.client_in_use_list true) λ left'. some true)
            ≡ some b)
          × ((b ≡ true) ↔ HasLists rp)
    second (through left) (xs, l, count) =
        let (w', e', t') = walk_list_lem rp inside left rp.area.client_in_use_list true in
        rw e' (third left xs l count w' t')
    second corrupt none_there = (false, refl, ((λ e. cc), none_fits))
      where
        none_fits : HasLists rp → false ≡ true
        none_fits (xs', ys', k, k', fits) = let more = none_there xs' k in absurd (omega arith)
