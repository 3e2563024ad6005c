-- ===== src/Bookkeeping/Lifetime.antt =====
-- An entry exists while there is a token for it.
use scroom.Common.{
  ℕ, zero, suc, ◌<◌, ◌≡◌, Bool, true, false, not, ◌&&◌, ◌||◌, ◌≤◌, leb, ◌==◌, none, some, arith,
  refl, subst, sym, Option-cases, Bool-cases, inl, inr, ap, ==_iff, List, [], ◌∷◌,
}
use scroom.Bookkeeping.{
  Stage, unused, alive, dying, gone, is_alive, is_holding, MapBase, set_at, any_below,
  is_value_alive, create_token, create_value, reserve, re_reserve, remove_expired, release, destroy,
  remove, get, set, empty, Step, reserves, re_reserves, sets, releases, destroys, removes, step,
  run,
}

any_below-true : (n : ℕ) (p : ℕ → Bool) (t : ℕ) → t < n → p t ≡ true → any_below n p ≡ true
unfolding any_below
any_below-true zero p t h e = absurd (omega arith)
any_below-true (suc n) p t h e = elim (Bool-cases (t == n)) [
  | inl f ↦ let same = (==_iff t n).0 f in ground (arith, e, ap p same)
  | inr f ↦ let rest = any_below-true n p t (ground (arith, f)) e in ground (arith, rest)
]

-- remove(k) is called somewhere in the steps.
unfoldable pub any_removes : {V : Type 0} → ℕ → List (Step V) → Bool
any_removes k [] = false
any_removes k (removes j ∷ ss) = (j == k) || any_removes k ss
any_removes k (_ ∷ ss) = any_removes k ss

module _ {V : Type 0} where
  -- The token is that of an entry for its key.
  abbrev pub IsEntered : MapBase V → ℕ → Type 0
  IsEntered m t =
      (m.map (m.token_key t) ≡ some (m.token_value t)) × (m.value_token (m.token_value t) ≡ t)

  -- An entry has a token for its key that is not deleted.
  abbrev pub HasToken : MapBase V → ℕ → ℕ → Type 0
  HasToken m k v =
      (is_holding (m.stage (m.value_token v)) ≡ true)
      × (m.token_key (m.value_token v) ≡ k)
      × (m.token_value (m.value_token v) ≡ v)

  -- For the tokens that `counts` picks, among those for the key `key`.
  pub record IsValid (counts : ℕ → Bool) (key : ℕ) (m : MapBase V) : Type 0 where
    pub entered :
        (t : ℕ)
        → is_alive (m.stage t) ≡ true
        → counts t ≡ true
        → m.token_key t ≡ key
        → IsEntered m t
    pub has_token : (k v : ℕ) → m.map k ≡ some v → HasToken m k v
    pub made :
        (t : ℕ)
        → is_holding (m.stage t) ≡ true
        → (t < m.next_token) × (m.token_value t < m.next_value)

  module _ (counts : ℕ → Bool) (key : ℕ) where
    is_value_alive-map :
        (m : MapBase V) (k v : ℕ)
        → IsValid counts key m
        → m.map k ≡ some v
        → is_value_alive m v ≡ true
    unfolding is_value_alive
    is_value_alive-map m k v i e =
        let (holding, key, value) = i.has_token k v e in
        let (made, less) = i.made (m.value_token v) holding in
        any_below-true m.next_token _ (m.value_token v) made (ground (arith, holding, value))

    create_value-IsValid :
        (default : V) (k : ℕ) (m : MapBase V)
        → m.map k ≡ none
        → IsValid counts key m
        → IsValid counts key (create_value default k m)
    unfolding create_value create_token
    create_value-IsValid default k m e i = record {
      entered = λ t h count same. ground (arith, e, i.entered t, i.made t);
      has_token = λ k' v h. ground (arith, e, i.has_token k' v, i.made (m.value_token v));
      made = λ t h. ground (arith, i.made t);
    }

    create_token-IsValid :
        (k v : ℕ) (m : MapBase V)
        → m.map k ≡ some v
        → is_alive (m.stage (m.value_token v)) ≡ false
        → IsValid counts key m
        → IsValid counts key (create_token k v m)
    unfolding create_token
    create_token-IsValid k v m e a i = record {
      entered = λ t h count same. ground (arith, e, a, i.entered t, i.made t);
      has_token = λ k' v' h.
          ground (arith, e, i.has_token k' v', i.has_token k v, i.made (m.value_token v'));
      made = λ t h. ground (arith, i.made t, i.has_token k v e, i.made (m.value_token v));
    }

    release-IsValid :
        (t : ℕ) (m : MapBase V) → IsValid counts key m → IsValid counts key (release t m)
    unfolding release
    release-IsValid t m i = record {
      entered = λ t' h count same. ground (arith, i.entered t');
      has_token = λ k v h. ground (arith, i.has_token k v);
      made = λ t' h. ground (arith, i.made t', i.made t);
    }

    remove_expired-kept :
        (k : ℕ) (m : MapBase V) (k' v' : ℕ)
        → IsValid counts key m
        → (remove_expired k m).map k' ≡ some v'
        → (m.map k' ≡ some v') × ((k' == k) && not (is_alive (m.stage (m.value_token v'))) ≡ false)
    unfolding remove_expired
    remove_expired-kept k m k' v' i h = elim (Option-cases (m.map k)) [
      | inl e ↦ ground (arith, h, e)
      | inr (v, e) ↦ ground (arith, h, e, is_value_alive-map m k v i e)
    ]

    remove_expired-other :
        (k : ℕ) (m : MapBase V) (t : ℕ)
        → IsValid counts key m
        → is_alive (m.stage t) ≡ true
        → counts t ≡ true
        → m.token_key t ≡ key
        → (remove_expired k m).map (m.token_key t) ≡ some (m.token_value t)
    unfolding remove_expired
    remove_expired-other k m t i a count same =
        let (entry, token) = i.entered t a count same in
        elim (Option-cases (m.map k)) [
          | inl e ↦ ground (arith, e, entry)
          | inr (v, e) ↦ ground (arith, e, entry, token, a, is_value_alive-map m k v i e)
        ]

    values-IsValid :
        (m : MapBase V) (values : ℕ → V)
        → IsValid counts key m
        → IsValid counts key (record m { values = values })
    values-IsValid m values i = record {
      entered = i.entered;
      has_token = i.has_token;
      made = i.made;
    }

    -- The destructor of a token, as a function of what is left after the entry was removed.
    abbrev give_up : ℕ → MapBase V → MapBase V
    give_up t removed = record removed { stage = set_at t gone removed.stage }

    remove_expired-fields :
        (k : ℕ) (m : MapBase V) → remove_expired k m ≡ record m { map = (remove_expired k m).map }
    unfolding remove_expired
    remove_expired-fields k m = elim (Option-cases (m.map k)) [
      | inl e ↦ ground (arith, e)
      | inr (v, e) ↦ ground (arith, e)
    ]

    give_up-IsValid :
        (t : ℕ) (m : MapBase V)
        → is_alive (m.stage t) ≡ false
        → IsValid counts key m
        → IsValid counts key (give_up t (record m { map = (remove_expired (m.token_key t) m).map }))
    give_up-IsValid t m a i = record {
      entered = λ t' h count same.
          ground (arith, h, i.entered t', remove_expired-other (m.token_key t) m t' i);
      has_token = λ k v h.
          ground (arith, h, a, i.has_token k v, remove_expired-kept (m.token_key t) m k v i);
      made = λ t' h. ground (arith, h, i.made t');
    }

    by_stage :
        (P : MapBase V → Type 0) (x m : MapBase V) (s : Stage)
        → (s ≡ dying → P x)
        → P m
        → P (elim s [ dying ↦ x | _ ↦ m ])
    by_stage P x m unused f p = p
    by_stage P x m alive f p = p
    by_stage P x m dying f p = f refl
    by_stage P x m gone f p = p

    destroy-IsValid :
        (t : ℕ) (m : MapBase V) → IsValid counts key m → IsValid counts key (destroy t m)
    unfolding destroy
    destroy-IsValid t m i =
        by_stage (IsValid counts key) (give_up t (remove_expired (m.token_key t) m)) m (m.stage t)
          (λ e.
            subst (λ r. IsValid counts key (give_up t r))
              (sym (remove_expired-fields (m.token_key t) m))
              (give_up-IsValid t m (ap is_alive e) i))
          i

    reserve-IsValid :
        (default : V) (k : ℕ) (m : MapBase V)
        → IsValid counts key m
        → IsValid counts key (step (reserves default k) m)
    unfolding step reserve
    reserve-IsValid default k m i = elim (Option-cases (m.map k)) [
      | inl e ↦ rw (step, reserve, e) (create_value-IsValid default k m e i)
      | inr (v, e) ↦ rw (step, reserve, e) i
    ]

    re_reserve-IsValid :
        (default : V) (k : ℕ) (m : MapBase V)
        → IsValid counts key m
        → IsValid counts key (step (re_reserves default k) m)
    unfolding step re_reserve
    re_reserve-IsValid default k m i = elim (Option-cases (m.map k)) [
      | inl e ↦ rw (step, re_reserve, e) (create_value-IsValid default k m e i)
      | inr (v, e) ↦
          let there = is_value_alive-map m k v i e in
          elim (Bool-cases (is_alive (m.stage (m.value_token v)))) [
            | inl a ↦ rw (step, re_reserve, e, there, a) i
            | inr a ↦ rw (step, re_reserve, e, there, a) (create_token-IsValid k v m e a i)
          ]
    ]

    set-IsValid :
        (k : ℕ) (a : V) (m : MapBase V)
        → IsValid counts key m
        → IsValid counts key (step (sets k a) m)
    unfolding step set
    set-IsValid k a m i = elim (Option-cases (m.map k)) [
      | inl e ↦ rw (step, set, e) i
      | inr (v, e) ↦
          rw (step, set, e, is_value_alive-map m k v i e) (values-IsValid m (set_at v a m.values) i)
    ]

    -- remove(k), where its key does not count.
    remove-IsValid :
        (k : ℕ) (m : MapBase V)
        → ((t : ℕ) → counts t ≡ true → (key == k) ≡ false)
        → IsValid counts key m
        → IsValid counts key (remove k m)
    unfolding remove
    remove-IsValid k m other i = record {
      entered = λ t h count same. ground (arith, i.entered t, other t);
      has_token = λ k' v h. ground (arith, h, i.has_token k' v);
      made = i.made;
    }

    step-IsValid :
        (s : Step V) (m : MapBase V)
        → ((t : ℕ) → counts t ≡ true → any_removes key (s ∷ []) ≡ false)
        → IsValid counts key m
        → IsValid counts key (step s m)
    unfolding step any_removes
    step-IsValid (reserves default k) m other i = reserve-IsValid default k m i
    step-IsValid (re_reserves default k) m other i = re_reserve-IsValid default k m i
    step-IsValid (sets k a) m other i = set-IsValid k a m i
    step-IsValid (releases t) m other i = release-IsValid t m i
    step-IsValid (destroys t) m other i = destroy-IsValid t m i
    step-IsValid (removes k) m other i =
        remove-IsValid k m (λ t c. let fact = other t c in ground (arith, fact)) i

    any_removes-cons :
        (s : Step V) (ss : List (Step V))
        → any_removes key (s ∷ ss) ≡ any_removes key (s ∷ []) || any_removes key ss
    unfolding any_removes
    any_removes-cons (reserves default k) ss = refl
    any_removes-cons (re_reserves default k) ss = refl
    any_removes-cons (sets k a) ss = refl
    any_removes-cons (releases t) ss = refl
    any_removes-cons (destroys t) ss = refl
    any_removes-cons (removes k) ss = ground arith

    run-IsValid :
        (ss : List (Step V)) (m : MapBase V)
        → any_removes key ss ≡ false
        → IsValid counts key m
        → IsValid counts key (run ss m)
    unfolding run
    run-IsValid [] m kept i = i
    run-IsValid (s ∷ ss) m kept i =
        let split = any_removes-cons s ss in
        let first : any_removes key (s ∷ []) ≡ false = ground (arith, split, kept) in
        run-IsValid ss (step s m) (ground (arith, split, kept)) (step-IsValid s m (λ t c. first) i)

    empty-IsValid : (default : V) → IsValid counts key (empty default)
    unfolding empty
    empty-IsValid default = record {
      entered = λ t h count same. ground (arith, h);
      has_token = λ k v h. ground (arith, h);
      made = λ t h. ground (arith, h);
    }

module _ {V : Type 0} where
  run-IsValid_none :
      (key : ℕ) (ss : List (Step V)) (m : MapBase V)
      → IsValid (λ t. false) key m
      → IsValid (λ t. false) key (run ss m)
  unfolding run
  run-IsValid_none key [] m i = i
  run-IsValid_none key (s ∷ ss) m i =
      run-IsValid_none key ss (step s m) (step-IsValid (λ t. false) key s m (λ t c. absurd (cc)) i)

  -- No token is made yet.
  start-IsValid :
      (key : ℕ) (m : MapBase V) → IsValid (λ t. false) key m → IsValid (leb m.next_token) key m
  start-IsValid key m i = record {
    entered = λ t h count same. absurd (ground (arith, h, count, i.made t));
    has_token = i.has_token;
    made = i.made;
  }

module _ {V : Type 0} (m : MapBase V) (k : ℕ) where
  get-entry : (v : ℕ) → m.map k ≡ some v → is_value_alive m v ≡ true → get k m ≡ some (m.values v)
  unfolding get
  get-entry v e h = ground (arith, e, h)

-- After every order of steps of any threads: as long as a token is alive that was made after the
-- steps `before`, and remove(k) for its key was not called since, the map has the value that belongs
-- to it under its key, whatever older tokens for this key are deleted, and however late.
pub get-alive :
    {V : Type 0} (default : V) (before ss : List (Step V)) (t : ℕ)
    → let made = run before (empty default) in
      let m = run ss made in
      is_alive (m.stage t) ≡ true
      → made.next_token ≤ t
      → any_removes (m.token_key t) ss ≡ false
      → get (m.token_key t) m ≡ some (m.values (m.token_value t))
get-alive default before ss t a later kept =
    let made = run before (empty default) in
    let m = run ss made in
    let k = m.token_key t in
    let none_yet =
      run-IsValid_none k before (empty default) (empty-IsValid (λ t. false) k default) in
    let start = start-IsValid k made none_yet in
    let i = run-IsValid (leb made.next_token) k ss made kept start in
    let (entry, token) = i.entered t a (ground (arith, later)) refl in
    get-entry m k (m.token_value t) entry
      (is_value_alive-map (leb made.next_token) k m k (m.token_value t) i entry)
