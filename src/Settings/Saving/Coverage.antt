-- ===== src/Settings/Saving/Coverage.antt =====
-- No change is forgotten while the writes succeed.
use hyprv.Prelude.{
  ℕ, zero, suc, ◌<◌, ◌≡◌, ◌≢◌, ◌⊎◌, inl, inr, refl, Bool, true, false, List, [], ◌∷◌, arith, All,
}
use hyprv.Settings.Saving.{
  SavePhase, testing, about_to_sleep, asleep, debouncing, saving, ended, written, skipped, thrown,
  Store, SaveStep, sets, marks, tests, sleeps, wakes, times_out, saves, saves_now, shuts_down,
  mark_dirty, test_flags, end_debounce, save_in_loop, save_now, save_step, save_run, final_flush,
  loaded,
}

module _ {ℓ} (Data : Type ℓ) where
  -- The file holds the values, or a setter is about to mark them, or they are marked, or the save
  -- thread is about to write.
  abbrev pub IsCovered : Store Data → Type ℓ
  IsCovered s = (s.file ≡ s.values) ⊎ (0 < s.unmarked) ⊎ (s.dirty ≡ true) ⊎ (s.phase ≡ saving)

  -- A write that is tried succeeds.
  abbrev pub Succeeds : SaveStep Data → Type 0
  Succeeds (saves outcome) = outcome ≡ written
  Succeeds (saves_now outcome) = outcome ≡ written
  Succeeds _ = Unit {0}

  abbrev at : Data → Data → ℕ → Bool → Bool → SavePhase → Store Data
  at v f u d sh ph = record {
    values = v;
    file = f;
    unmarked = u;
    dirty = d;
    shutdown = sh;
    phase = ph;
  }

  -- A thread that is not about to write may go elsewhere.
  move-IsCovered :
      (v f : Data) (u : ℕ) (d sh sh' : Bool) (ph ph' : SavePhase)
      → ph ≢ saving
      → IsCovered (at v f u d sh ph)
      → IsCovered (at v f u d sh' ph')
  move-IsCovered v f u d sh sh' ph ph' n (inl e) = inl e
  move-IsCovered v f u d sh sh' ph ph' n (inr (inl e)) = inr (inl e)
  move-IsCovered v f u d sh sh' ph ph' n (inr (inr (inl e))) = inr (inr (inl e))
  move-IsCovered v f u d sh sh' ph ph' n (inr (inr (inr e))) = absurd (n e)

  mark-IsCovered :
      (v f : Data) (u : ℕ) (d sh : Bool) (ph : SavePhase)
      → IsCovered (at v f u d sh ph)
      → IsCovered (mark_dirty Data (at v f u d sh ph))
  unfolding mark_dirty
  mark-IsCovered v f zero d sh ph c = c
  mark-IsCovered v f (suc u) d sh ph c = inr (inr (inl refl))

  step_of :
      (v f : Data) (u : ℕ) (d sh : Bool) (ph : SavePhase) (k : SaveStep Data)
      → Succeeds k
      → IsCovered (at v f u d sh ph)
      → IsCovered (save_step Data (at v f u d sh ph) k)
  unfolding save_step test_flags end_debounce save_in_loop save_now
  step_of v f u d sh ph (sets new) w c = inr (inl (omega arith))
  step_of v f u d sh ph marks w c = mark-IsCovered v f u d sh ph c
  step_of v f u d true testing tests w c =
      move-IsCovered v f u d true true testing ended (λ e. absurd cc) c
  step_of v f u true false testing tests w c = inr (inr (inl refl))
  step_of v f u false false testing tests w c =
      move-IsCovered v f u false false false testing about_to_sleep (λ e. absurd cc) c
  step_of v f u d sh about_to_sleep sleeps w c =
      move-IsCovered v f u d sh sh about_to_sleep asleep (λ e. absurd cc) c
  step_of v f u d sh asleep wakes w c =
      move-IsCovered v f u d sh sh asleep testing (λ e. absurd cc) c
  step_of v f u d true debouncing times_out w c =
      move-IsCovered v f u d true true debouncing ended (λ e. absurd cc) c
  step_of v f u d false debouncing times_out w c = inr (inr (inr refl))
  step_of v f u d sh saving (saves written) w c = inl refl
  step_of v f u d sh ph (saves skipped) w c = absurd cc
  step_of v f u d sh ph (saves thrown) w c = absurd cc
  step_of v f u d sh ph (saves_now written) w c = inl refl
  step_of v f u d sh ph (saves_now skipped) w c = absurd cc
  step_of v f u d sh ph (saves_now thrown) w c = absurd cc
  step_of v f u d sh asleep shuts_down w c =
      move-IsCovered v f u d sh true asleep testing (λ e. absurd cc) c
  step_of v f u d sh about_to_sleep tests w c = c
  step_of v f u d sh asleep tests w c = c
  step_of v f u d sh debouncing tests w c = c
  step_of v f u d sh saving tests w c = c
  step_of v f u d sh ended tests w c = c
  step_of v f u d sh testing sleeps w c = c
  step_of v f u d sh asleep sleeps w c = c
  step_of v f u d sh debouncing sleeps w c = c
  step_of v f u d sh saving sleeps w c = c
  step_of v f u d sh ended sleeps w c = c
  step_of v f u d sh testing wakes w c = c
  step_of v f u d sh about_to_sleep wakes w c = c
  step_of v f u d sh debouncing wakes w c = c
  step_of v f u d sh saving wakes w c = c
  step_of v f u d sh ended wakes w c = c
  step_of v f u d sh testing times_out w c = c
  step_of v f u d sh about_to_sleep times_out w c = c
  step_of v f u d sh asleep times_out w c = c
  step_of v f u d sh saving times_out w c = c
  step_of v f u d sh ended times_out w c = c
  step_of v f u d sh testing (saves written) w c = c
  step_of v f u d sh about_to_sleep (saves written) w c = c
  step_of v f u d sh asleep (saves written) w c = c
  step_of v f u d sh debouncing (saves written) w c = c
  step_of v f u d sh ended (saves written) w c = c
  step_of v f u d sh testing shuts_down w c = c
  step_of v f u d sh about_to_sleep shuts_down w c = c
  step_of v f u d sh debouncing shuts_down w c = c
  step_of v f u d sh saving shuts_down w c = c
  step_of v f u d sh ended shuts_down w c = c

  save_run-IsCovered :
      (s : Store Data) (ks : List (SaveStep Data))
      → All Succeeds ks
      → IsCovered s
      → IsCovered (save_run Data s ks)
  unfolding save_run
  save_run-IsCovered s [] w c = c
  save_run-IsCovered s (k ∷ ks) w c =
      save_run-IsCovered (save_step Data s k) ks w.1
        (step_of s.values s.file s.unmarked s.dirty s.shutdown s.phase k w.0 c)

  -- However the setters, the save thread, `SaveNow` and the shutdown interleave: while the writes
  -- that are tried succeed, a value that is not in the file is marked, or about to be marked by its
  -- setter, or about to be written by the save thread.
  pub loaded-IsCovered :
      (d : Data) (ks : List (SaveStep Data))
      → All Succeeds ks
      → IsCovered (save_run Data (loaded Data d) ks)
  unfolding loaded
  loaded-IsCovered d ks w = save_run-IsCovered (loaded Data d) ks w (inl refl)

  flush_of :
      (s : Store Data)
      → IsCovered s
      → s.phase ≡ ended
      → s.unmarked ≡ 0
      → (final_flush Data written s).file ≡ s.values
  unfolding final_flush
  flush_of s c e z = ground arith

  -- When the save thread has ended and every setter has marked its change, the destructor leaves the
  -- last values in the file, if the writes that are tried succeed.
  pub final_flush-saved :
      (d : Data) (ks : List (SaveStep Data))
      → All Succeeds ks
      → (save_run Data (loaded Data d) ks).phase ≡ ended
      → (save_run Data (loaded Data d) ks).unmarked ≡ 0
      → (final_flush Data written (save_run Data (loaded Data d) ks)).file
        ≡ (save_run Data (loaded Data d) ks).values
  final_flush-saved d ks w e z =
      flush_of (save_run Data (loaded Data d) ks) (loaded-IsCovered d ks w) e z
