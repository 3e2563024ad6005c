-- ===== src/Progress/Broadcasting.antt =====
-- What the children of a broadcaster are told.
use scroom.Common.{
  ℕ, ◌≡◌, refl, subst, ◌∙◌, inl, inr, true, false, ◌==◌, ==_iff, Bool-cases, if◌then◌else◌, List,
  [], ◌∷◌, arith,
}
use scroom.Progress.{
  Call, init, Broadcaster, mem, erase, tell, tell_all, create_broadcaster, subscribe, unsubscribe,
  broadcast, Step, subscribes, unsubscribes, broadcasts, Reach, created, next,
}
use scroom.Progress.Conversion.{calls-roundtrip}

abbrev pub IsUnique : List ℕ → Type 0
IsUnique [] = true ≡ true
IsUnique (x ∷ xs) = (mem x xs ≡ false) × IsUnique xs

mem-erase : (c d : ℕ) (cs : List ℕ) → mem d (erase c cs) ≡ true → mem d cs ≡ true
unfolding mem erase
mem-erase c d [] h = h
mem-erase c d (x ∷ xs) h = ground (arith, mem-erase c d xs)

mem-erase_absent : (c d : ℕ) (cs : List ℕ) → mem d cs ≡ false → mem d (erase c cs) ≡ false
unfolding mem erase
mem-erase_absent c d [] h = h
mem-erase_absent c d (x ∷ xs) h = ground (arith, mem-erase_absent c d xs)

erase-IsUnique : (c : ℕ) (cs : List ℕ) → IsUnique cs → IsUnique (erase c cs)
unfolding mem erase
erase-IsUnique c [] u = u
erase-IsUnique c (x ∷ xs) (n, u) = elim (Bool-cases (x == c)) [
  | inl e ↦ rw e (erase-IsUnique c xs u)
  | inr e ↦ rw e (mem-erase_absent c x xs n, erase-IsUnique c xs u)
]

module _ {Double : Type 0} where
  tell_all-told :
      (call : Call Double) (cs : List ℕ) (told : ℕ → List (Call Double)) (d : ℕ)
      → IsUnique cs
      → tell_all call cs told d ≡ (if mem d cs then call ∷ told d else told d)
  unfolding tell_all tell mem
  tell_all-told call [] told d u = refl
  tell_all-told call (c ∷ cs) told d (n, u) = elim (Bool-cases (c == d)) [
    | inl e ↦
        let same = (==_iff c d).0 e in
        tell_all-told call cs (tell call c told) d u ∙ ground (arith, same, n)
    | inr e ↦ tell_all-told call cs (tell call c told) d u ∙ ground (arith, e)
  ]

  -- Every child that is in the set was last told what the store would tell it now.
  pub record IsCurrent (b : Broadcaster Double) : Type 0 where
    pub unique : IsUnique b.children
    pub heard :
        (c : ℕ)
        → mem c b.children ≡ true
        → (rest : List (Call Double)) × (b.told c ≡ init b.store ∷ rest)

  subscribe-IsCurrent : (c : ℕ) (b : Broadcaster Double) → IsCurrent b → IsCurrent (subscribe c b)
  unfolding subscribe tell mem
  subscribe-IsCurrent c b v = record {
    unique = ground (arith, v.unique);
    heard = λ d h. elim (Bool-cases (c == d)) [
      | inl e ↦ (b.told d, rw e refl)
      | inr e ↦ let old = v.heard d (ground (arith, h, e)) in (old.0, rw e (old.1))
    ];
  }

  unsubscribe-IsCurrent :
      (c : ℕ) (b : Broadcaster Double) → IsCurrent b → IsCurrent (unsubscribe c b)
  unfolding unsubscribe
  unsubscribe-IsCurrent c b v = record {
    unique = erase-IsUnique c b.children v.unique;
    heard = λ d h. v.heard d (mem-erase c d b.children h);
  }

  broadcast-IsCurrent :
      (nothing all : Double) (call : Call Double) (b : Broadcaster Double)
      → IsCurrent b
      → IsCurrent (broadcast nothing all call b)
  unfolding broadcast
  broadcast-IsCurrent nothing all call b v = record {
    unique = v.unique;
    heard = λ d h. (
      b.told d,
      rw
          (
            (calls-roundtrip nothing all call b.store).1,
            tell_all-told call b.children b.told d v.unique,
            h,
          )
          refl,
    );
  }

  Step-IsCurrent :
      {nothing all : Double} {b d : Broadcaster Double}
      → Step nothing all b d
      → IsCurrent b
      → IsCurrent d
  Step-IsCurrent {b = b} (subscribes c e) v = subst IsCurrent e (subscribe-IsCurrent c b v)
  Step-IsCurrent {b = b} (unsubscribes c e) v = subst IsCurrent e (unsubscribe-IsCurrent c b v)
  Step-IsCurrent {nothing} {all} {b} (broadcasts call e) v =
      subst IsCurrent e (broadcast-IsCurrent nothing all call b v)

  Reach-IsCurrent :
      {nothing all : Double} {b : Broadcaster Double} → Reach nothing all b → IsCurrent b
  Reach-IsCurrent {nothing} (created e) =
      subst IsCurrent e
        (unfold create_broadcaster mem in record { unique = refl; heard = λ c h. cc })
  Reach-IsCurrent (next r s) = Step-IsCurrent s (Reach-IsCurrent r)

  -- In every reachable state, a child in the set has been told last what the store holds, however
  -- late it subscribed.
  pub told-init :
      {nothing all : Double} {b : Broadcaster Double} (c : ℕ)
      → Reach nothing all b
      → mem c b.children ≡ true
      → (rest : List (Call Double)) × (b.told c ≡ init b.store ∷ rest)
  told-init c r h = (Reach-IsCurrent r).heard c h

  -- In every reachable state, a call on the broadcaster reaches each child in the set once, and no
  -- other.
  pub broadcast-told :
      {nothing all : Double} {b : Broadcaster Double} (call : Call Double) (c : ℕ)
      → Reach nothing all b
      → (broadcast nothing all call b).told c
        ≡ (if mem c b.children then call ∷ b.told c else b.told c)
  unfolding broadcast
  broadcast-told {b = b} call c r =
      tell_all-told call b.children b.told c (Reach-IsCurrent r).unique
