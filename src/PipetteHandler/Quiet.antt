-- ===== src/PipetteHandler/Quiet.antt =====
-- No values after the tool is switched off.
use scroom.Common.{
  ℕ, ◌+◌, ◌≡◌, ◌≤◌, refl, sym, ◌∙◌, subst, Bool, true, false, ◌&&◌, if◌then◌else◌, none, List, [],
  ◌∷◌, ◌++◌, length, arith, inl, inr, ◌⊎◌, Bool-cases,
}
use scroom.PipetteHandler.{
  Running, free, working, posting, clearing, leaving, Message, computing, unsupported, values,
  Event, selection_update, selection_end, enable, disable, job_start, job_test, job_show, job_end,
  Handler, on_selection_update, on_selection_end, on_disable, say, compute_start, compute_test,
  start_next, test_running, show_running, compute_end, handle, handle_all,
}

-- How many values are shown.
unfoldable pub shown {ℓ} : {A : Type ℓ} → List (Message A) → ℕ
shown [] = 0
shown (computing ∷ ms) = shown ms
shown (unsupported ∷ ms) = shown ms
shown (values a ∷ ms) = 1 + shown ms

shown-append {ℓ} : {A : Type ℓ} (ms ns : List (Message A)) → shown (ms ++ ns) ≡ shown ms + shown ns
unfolding shown
shown-append [] ns = omega arith
shown-append (computing ∷ ms) ns = shown-append ms ns
shown-append (unsupported ∷ ms) ns = shown-append ms ns
shown-append (values a ∷ ms) ns = omega (arith, shown-append ms ns)

shown-computing {ℓ} : {A : Type ℓ} (ms : List (Message A)) → shown (ms ++ computing ∷ []) ≡ shown ms
unfolding shown
shown-computing ms = omega (arith, shown-append ms (computing ∷ []))

pub shown-unsupported {ℓ} :
    {A : Type ℓ} (ms : List (Message A)) → shown (ms ++ unsupported ∷ []) ≡ shown ms
unfolding shown
shown-unsupported ms = omega (arith, shown-append ms (unsupported ∷ []))

-- The tool is switched on here.
unfoldable pub is_enable {ℓ} : {A : Type ℓ} → Event A → Bool
is_enable enable = true
is_enable _ = false

unfoldable pub any_enable {ℓ} : {A : Type ℓ} → List (Event A) → Bool
any_enable [] = false
any_enable (e ∷ es) = if is_enable e then true else any_enable es

-- Nothing happens where the mutex is taken, or the tool is off.
pub if-busy :
    {A : Type 0} (P : A → Type 0) (b c : Bool) (v w : A)
    → c ≡ false
    → P w
    → P (if b && c then v else w)
if-busy P true c v w e p = rw e p
if-busy P false c v w e p = p

if-off :
    {A : Type 0} (P : A → Type 0) (b c : Bool) (v w : A)
    → b ≡ false
    → P w
    → P (if b && c then v else w)
if-off P b c v w e p = rw e p

-- The job that runs has not ended; it has not tested the flag; it is about to show its values.
unfoldable pub running_jobs {ℓ} : {A : Type ℓ} → Running A → ℕ
running_jobs free = 0
running_jobs _ = 1

unfoldable pub working_jobs {ℓ} : {A : Type ℓ} → Running A → ℕ
working_jobs (working s) = 1
working_jobs _ = 0

unfoldable pub is_posting {ℓ} : {A : Type ℓ} → Running A → Bool
is_posting (posting s) = true
is_posting _ = false

module _ {Selection Colors : Type 0} (compute : Selection → Colors) where
  -- A state with the tool off: at most one job has not ended; none is about to show its values; and one
  -- that has not tested the flag will find it.
  pub record IsQuiet (n : ℕ) (h : Handler Selection Colors) : Type 0 where
    pub off : h.enabled ≡ false
    pub cleared : h.selection ≡ none
    pub few : running_jobs h.running + length h.pending ≤ 1
    pub not_posting : is_posting h.running ≡ false
    pub flagged : (working_jobs h.running + length h.pending ≡ 0) ⊎ (h.was_disabled ≡ true)
    pub showing : shown h.messages ≡ n

  -- The same as of a state that the clauses can take apart.
  abbrev state :
      Bool → Running Selection → List Selection → List (Message Colors) → Handler Selection Colors
  state flag r jobs ms = record {
    selection = none;
    enabled = false;
    was_disabled = flag;
    running = r;
    pending = jobs;
    messages = ms;
  }

  job-IsQuiet :
      (n : ℕ) (e : Event Selection) (flag : Bool) (r : Running Selection) (jobs : List Selection)
      (ms : List (Message Colors))
      → is_enable e ≡ false
      → IsQuiet n (state flag r jobs ms)
      → IsQuiet n (handle compute e (state flag r jobs ms))
  unfolding handle is_enable on_selection_update on_selection_end on_disable start_next test_running
      show_running compute_end compute_start compute_test say running_jobs working_jobs is_posting
  job-IsQuiet n (selection_update s) flag r jobs ms d q = q
  job-IsQuiet n (selection_end s) flag r jobs ms d q = q
  job-IsQuiet n enable flag r jobs ms d q = absurd (cc)
  job-IsQuiet n disable flag r jobs ms d q = record {
    off = refl;
    cleared = refl;
    few = q.few;
    not_posting = q.not_posting;
    flagged = inr refl;
    showing = q.showing;
  }
  job-IsQuiet n job_start flag free [] ms d q = q
  job-IsQuiet n job_start flag free (s ∷ rest) ms d q = record {
    off = refl;
    cleared = refl;
    few = omega (arith, q.few);
    not_posting = refl;
    flagged = ground (arith, q.flagged);
    showing = shown-computing ms ∙ q.showing;
  }
  job-IsQuiet n job_start flag (working s) jobs ms d q = q
  job-IsQuiet n job_start flag (posting s) jobs ms d q = q
  job-IsQuiet n job_start flag clearing jobs ms d q = q
  job-IsQuiet n job_start flag leaving jobs ms d q = q
  job-IsQuiet n (job_test true) true (working s) jobs ms d q = record {
    off = refl;
    cleared = refl;
    few = omega (arith, q.few);
    not_posting = refl;
    flagged = inr refl;
    showing = q.showing;
  }
  job-IsQuiet n (job_test true) false (working s) jobs ms d q = absurd (ground (arith, q.flagged))
  job-IsQuiet n (job_test false) flag (working s) jobs ms d q = record {
    off = refl;
    cleared = refl;
    few = omega (arith, q.few);
    not_posting = refl;
    flagged = ground (arith, q.flagged, q.few);
    showing = shown-unsupported ms ∙ q.showing;
  }
  job-IsQuiet n (job_test supported) flag free jobs ms d q = q
  job-IsQuiet n (job_test supported) flag (posting s) jobs ms d q = q
  job-IsQuiet n (job_test supported) flag clearing jobs ms d q = q
  job-IsQuiet n (job_test supported) flag leaving jobs ms d q = q
  job-IsQuiet n job_show flag (posting s) jobs ms d q = absurd (ground (arith, q.not_posting))
  job-IsQuiet n job_show flag free jobs ms d q = q
  job-IsQuiet n job_show flag (working s) jobs ms d q = q
  job-IsQuiet n job_show flag clearing jobs ms d q = q
  job-IsQuiet n job_show flag leaving jobs ms d q = q
  job-IsQuiet n job_end flag clearing jobs ms d q = record {
    off = refl;
    cleared = refl;
    few = omega (arith, q.few);
    not_posting = refl;
    flagged = inl (omega (arith, q.few));
    showing = q.showing;
  }
  job-IsQuiet n job_end flag leaving jobs ms d q = record {
    off = refl;
    cleared = refl;
    few = omega (arith, q.few);
    not_posting = refl;
    flagged = inl (omega (arith, q.few));
    showing = q.showing;
  }
  job-IsQuiet n job_end flag free jobs ms d q = q
  job-IsQuiet n job_end flag (working s) jobs ms d q = q
  job-IsQuiet n job_end flag (posting s) jobs ms d q = q

  quiet_state :
      (n : ℕ) (h : Handler Selection Colors)
      → IsQuiet n h
      → h ≡ state h.was_disabled h.running h.pending h.messages
  quiet_state n h q = λ i. record h { selection = q.cleared i; enabled = q.off i }

  handle-IsQuiet :
      (n : ℕ) (e : Event Selection) (h : Handler Selection Colors)
      → is_enable e ≡ false
      → IsQuiet n h
      → IsQuiet n (handle compute e h)
  handle-IsQuiet n e h d q =
      let same = quiet_state n h q in
      subst (λ g. IsQuiet n (handle compute e g)) (sym same)
        (job-IsQuiet n e h.was_disabled h.running h.pending h.messages d (subst (IsQuiet n) same q))

  all-IsQuiet :
      (n : ℕ) (es : List (Event Selection)) (h : Handler Selection Colors)
      → any_enable es ≡ false
      → IsQuiet n h
      → IsQuiet n (handle_all compute es h)
  unfolding handle_all any_enable
  all-IsQuiet n [] h d q = q
  all-IsQuiet n (e ∷ es) h d q = elim (Bool-cases (is_enable e)) [
    | inl on ↦ absurd (ground (arith, on, d))
    | inr off ↦
        all-IsQuiet n es (handle compute e h) (ground (arith, off, d)) (handle-IsQuiet n e h off q)
  ]

  -- When the tool is switched off while at most one job has not ended, and that one has not just tested
  -- the flag to show its values: until it is switched on again, whatever else happens in between, it
  -- stays off, nothing is selected, no values are shown, none are about to be, and the job, if it has
  -- not tested the flag, will find it.
  pub on_disable-IsQuiet :
      (es : List (Event Selection)) (h : Handler Selection Colors)
      → running_jobs h.running + length h.pending ≤ 1
      → is_posting h.running ≡ false
      → any_enable es ≡ false
      → IsQuiet (shown h.messages) (handle_all compute es (on_disable compute h))
  unfolding on_disable
  on_disable-IsQuiet es h few posts off =
      all-IsQuiet (shown h.messages) es (on_disable compute h) off (record {
        off = refl;
        cleared = refl;
        few = few;
        not_posting = posts;
        flagged = inr refl;
        showing = refl;
      })
