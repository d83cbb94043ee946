-- ===== src/Windows/Requests/Register.antt =====
-- `register_windows`: the pool grows by one window at its end, up to 32.
use mathlib.Core.Option
use lfdk.Common.{
  ℕ, zero, suc, ◌+◌, ◌≤◌, ◌<◌, ◌≡◌, refl, ap, inl, inr, ◌⊎◌, false, true, some, List, [], ◌∷◌, ◌++◌,
  pos, ltb, arith, length, get_elem?, length-append, Bool-cases,
}
use lfdk.Windows.State.{not_start, Window, Manager, window_at, state_at, err_buf_overflow}
use lfdk.Windows.Requests.{register_windows}

module _ {A : Type 0} where
  get_elem?-append_last : (xs : List A) (a : A) → get_elem? (xs ++ (a ∷ [])) (length xs) ≡ some a
  get_elem?-append_last [] a = refl
  get_elem?-append_last (x ∷ xs) a = get_elem?-append_last xs a

  get_elem?-append_before :
      (xs : List A) (a : A) (j : ℕ) → j < length xs → get_elem? (xs ++ (a ∷ [])) j ≡ get_elem? xs j
  get_elem?-append_before [] a j h = absurd (omega arith)
  get_elem?-append_before (x ∷ xs) a zero h = refl
  get_elem?-append_before (x ∷ xs) a (suc j) h = get_elem?-append_before xs a j (omega arith)

module _ (w : Window) (wm : Manager) where
  has_room : length wm.windows_pool < 32 → ltb 32 (length wm.windows_pool + 1) ≡ false
  has_room h = ground arith

  -- While fewer than 32 windows are in use, a window that registers gets the next handle, is found
  -- there and has not started, and the windows before it stay.
  registered :
      (j : ℕ)
      → length wm.windows_pool < 32
      → j < length wm.windows_pool
      → ((register_windows w wm).1 ≡ pos (length wm.windows_pool))
        × (window_at (register_windows w wm).0 (length wm.windows_pool) ≡ some w)
        × (state_at (register_windows w wm).0 (length wm.windows_pool) ≡ some not_start)
        × (get_elem? (register_windows w wm).0.windows_pool j ≡ get_elem? wm.windows_pool j)
  unfolding register_windows
  registered j room used = rw (has_room room) (
    refl,
    ap (Option.map (λ i. i.p_win)) (get_elem?-append_last wm.windows_pool _),
    ap (Option.map (λ i. i.win_state)) (get_elem?-append_last wm.windows_pool _),
    get_elem?-append_before wm.windows_pool _ j used,
  )

  register_windows-full :
      length wm.windows_pool ≡ 32 → register_windows w wm ≡ (wm, err_buf_overflow)
  unfolding register_windows
  register_windows-full full =
      let beyond : ltb 32 (length wm.windows_pool + 1) ≡ true = ground (arith, full) in
      rw beyond refl

  register_windows-bound :
      length wm.windows_pool ≤ 32 → length (register_windows w wm).0.windows_pool ≤ 32
  unfolding register_windows
  register_windows-bound h = elim (Bool-cases (ltb 32 (length wm.windows_pool + 1))) [
    | inl full ↦ rw full h
    | inr room ↦
        let below : length wm.windows_pool < 32 = ground arith in
        let more =
          length-append wm.windows_pool (record { p_win = w; win_state = not_start } ∷ []) in
        rw room (omega (arith, more, below))
  ]

  -- A pool of at most 32 windows stays one. While fewer than 32 are in use, a window that registers
  -- gets the next handle, is found there and has not started, and the windows before it stay; the
  -- call that finds 32 is refused and changes nothing.
  pub register_windows_lem :
      (j : ℕ)
      → length wm.windows_pool ≤ 32
      → j < length wm.windows_pool
      → (length (register_windows w wm).0.windows_pool ≤ 32)
        × (((length wm.windows_pool < 32)
              × ((register_windows w wm).1 ≡ pos (length wm.windows_pool))
              × (window_at (register_windows w wm).0 (length wm.windows_pool) ≡ some w)
              × (state_at (register_windows w wm).0 (length wm.windows_pool) ≡ some not_start)
              × (get_elem? (register_windows w wm).0.windows_pool j ≡ get_elem? wm.windows_pool j))
            ⊎ ((length wm.windows_pool ≡ 32) × (register_windows w wm ≡ (wm, err_buf_overflow))))
  register_windows_lem j h used = elim (Bool-cases (ltb (length wm.windows_pool) 32)) [
    | inl below ↦
        let room : length wm.windows_pool < 32 = ground arith in
        let (handle, found, state, before) = registered j room used in
        (register_windows-bound h, inl (room, handle, found, state, before))
    | inr above ↦
        let full : length wm.windows_pool ≡ 32 = ground arith in
        (register_windows-bound h, inr (full, register_windows-full full))
  ]
