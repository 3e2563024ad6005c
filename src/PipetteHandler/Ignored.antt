-- ===== src/PipetteHandler/Ignored.antt =====
-- No values of a job that runs when the tool is switched off.
use scroom.Common.{
  ℕ, ◌≡◌, refl, ◌∙◌, Bool, true, false, if◌then◌else◌, List, [], ◌∷◌, arith, inl, inr, Bool-cases,
}
use scroom.PipetteHandler.{
  Running, free, working, posting, clearing, leaving, is_free, Event, selection_update,
  selection_end, enable, disable, job_start, job_test, job_show, job_end, Handler,
  on_selection_update, on_selection_end, on_disable, on_enable, say, compute_test, start_next,
  test_running, show_running, compute_end, handle, handle_all,
}
use scroom.PipetteHandler.Quiet.{shown, shown-unsupported, if-busy}

-- A job ends here.
unfoldable pub is_end {ℓ} : {A : Type ℓ} → Event A → Bool
is_end job_end = true
is_end _ = false

unfoldable pub any_end {ℓ} : {A : Type ℓ} → List (Event A) → Bool
any_end [] = false
any_end (e ∷ es) = if is_end e then true else any_end es

-- The job that runs will find the flag, or has found it, or leaves without it.
will_find {ℓ} : {A : Type ℓ} → Bool → Running A → Bool
will_find flag (working s) = flag
will_find flag clearing = true
will_find flag leaving = true
will_find flag _ = false

module _ {Selection Colors : Type 0} (compute : Selection → Colors) where
  record IsFlagged (n : ℕ) (h : Handler Selection Colors) : Type 0 where
    finds : will_find h.was_disabled h.running ≡ true
    showing : shown h.messages ≡ n

  finds-busy : (flag : Bool) (r : Running Selection) → will_find flag r ≡ true → is_free r ≡ false
  unfolding will_find is_free
  finds-busy flag free e = absurd (cc)
  finds-busy flag (working s) e = refl
  finds-busy flag (posting s) e = absurd (cc)
  finds-busy flag clearing e = refl
  finds-busy flag leaving e = refl

  start-IsFlagged :
      (n : ℕ) (r : Running Selection) (h : Handler Selection Colors)
      → will_find h.was_disabled r ≡ true
      → IsFlagged n h
      → IsFlagged n (start_next compute r h.pending h)
  unfolding start_next will_find
  start-IsFlagged n free h e q = absurd (cc)
  start-IsFlagged n (working s) h e q = q
  start-IsFlagged n (posting s) h e q = q
  start-IsFlagged n clearing h e q = q
  start-IsFlagged n leaving h e q = q

  test-IsFlagged :
      (n : ℕ) (supported : Bool) (r : Running Selection) (h : Handler Selection Colors)
      → will_find h.was_disabled r ≡ true
      → IsFlagged n h
      → IsFlagged n (test_running compute supported r h)
  unfolding test_running compute_test say will_find
  test-IsFlagged n supported free h e q = q
  test-IsFlagged n true (working s) h e q = rw e (record { finds = refl; showing = q.showing })
  test-IsFlagged n false (working s) h e q = record {
    finds = refl;
    showing = shown-unsupported h.messages ∙ q.showing;
  }
  test-IsFlagged n supported (posting s) h e q = q
  test-IsFlagged n supported clearing h e q = q
  test-IsFlagged n supported leaving h e q = q

  show-IsFlagged :
      (n : ℕ) (r : Running Selection) (h : Handler Selection Colors)
      → will_find h.was_disabled r ≡ true
      → IsFlagged n h
      → IsFlagged n (show_running compute r h)
  unfolding show_running will_find
  show-IsFlagged n free h e q = q
  show-IsFlagged n (working s) h e q = q
  show-IsFlagged n (posting s) h e q = absurd (cc)
  show-IsFlagged n clearing h e q = q
  show-IsFlagged n leaving h e q = q

  off-finds :
      (flag : Bool) (r : Running Selection) → will_find flag r ≡ true → will_find true r ≡ true
  unfolding will_find
  off-finds flag free e = e
  off-finds flag (working s) e = refl
  off-finds flag (posting s) e = e
  off-finds flag clearing e = refl
  off-finds flag leaving e = refl

  handle-IsFlagged :
      (n : ℕ) (e : Event Selection) (h : Handler Selection Colors)
      → is_end e ≡ false
      → IsFlagged n h
      → IsFlagged n (handle compute e h)
  unfolding handle is_end on_selection_update on_selection_end on_enable on_disable
  handle-IsFlagged n (selection_update s) h d q =
      if-busy (IsFlagged n) h.enabled (is_free h.running) _ h
        (finds-busy h.was_disabled h.running q.finds) q
  handle-IsFlagged n (selection_end s) h d q =
      if-busy (IsFlagged n) h.enabled (is_free h.running) _ h
        (finds-busy h.was_disabled h.running q.finds) q
  handle-IsFlagged n enable h d q =
      if-busy (IsFlagged n) true (is_free h.running) _ (record h { enabled = true })
        (finds-busy h.was_disabled h.running q.finds)
        (record { finds = q.finds; showing = q.showing })
  handle-IsFlagged n disable h d q = record {
    finds = off-finds h.was_disabled h.running q.finds;
    showing = q.showing;
  }
  handle-IsFlagged n job_start h d q = start-IsFlagged n h.running h q.finds q
  handle-IsFlagged n (job_test supported) h d q = test-IsFlagged n supported h.running h q.finds q
  handle-IsFlagged n job_show h d q = show-IsFlagged n h.running h q.finds q
  handle-IsFlagged n job_end h d q = absurd (cc)

  all-IsFlagged :
      (n : ℕ) (es : List (Event Selection)) (h : Handler Selection Colors)
      → any_end es ≡ false
      → IsFlagged n h
      → IsFlagged n (handle_all compute es h)
  unfolding handle_all any_end
  all-IsFlagged n [] h d q = q
  all-IsFlagged n (e ∷ es) h d q = elim (Bool-cases (is_end e)) [
    | inl on ↦ absurd (ground (arith, on, d))
    | inr off ↦
        all-IsFlagged n es (handle compute e h) (ground (arith, off, d))
          (handle-IsFlagged n e h off q)
  ]

  end-shown :
      (r : Running Selection) (h : Handler Selection Colors)
      → shown (compute_end compute r h).messages ≡ shown h.messages
  unfolding compute_end
  end-shown free h = refl
  end-shown (working s) h = refl
  end-shown (posting s) h = refl
  end-shown clearing h = refl
  end-shown leaving h = refl

  -- When the tool is switched off while a job runs that has not tested the flag, no values are shown
  -- until that job has ended, whatever else happens, also when the tool is switched on again in between.
  pub on_disable-ignored :
      (r : Selection) (es : List (Event Selection)) (h : Handler Selection Colors)
      → h.running ≡ working r
      → any_end es ≡ false
      → shown (handle compute job_end (handle_all compute es (on_disable compute h))).messages
        ≡ shown h.messages
  unfolding handle on_disable will_find
  on_disable-ignored r es h e none_ends =
      let after = handle_all compute es (on_disable compute h) in
      let q =
        all-IsFlagged (shown h.messages) es (on_disable compute h) none_ends
          (record { finds = rw e refl; showing = refl }) in
      end-shown after.running after ∙ q.showing
