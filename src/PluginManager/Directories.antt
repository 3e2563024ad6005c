-- ===== src/PluginManager/Directories.antt =====
-- The directories that the environment variable names.
use mathlib.Core.List.{append_assoc}
use scroom.Common.{
  ℕ, true, false, ◌==◌, ==_iff, ◌≡◌, ◌≢◌, refl, ap, sym, ◌∙◌, List, [], ◌∷◌, ◌++◌, arith,
  Bool-cases, inl, inr,
}
use scroom.PluginManager.{find_dirs, delimiter}

-- Each text after a delimiter.
glue : List (List ℕ) → List ℕ
glue [] = []
glue (d ∷ ds) = delimiter ∷ d ++ glue ds

-- The texts, one after the other, with a delimiter between them.
pub join : List (List ℕ) → List ℕ
unfolding glue
join [] = []
join (d ∷ ds) = d ++ glue ds

pub Lacks : List ℕ → Type 0
Lacks [] = Unit {0}
Lacks (c ∷ cs) = (c ≢ delimiter) × Lacks cs

pub AllLack : List (List ℕ) → Type 0
AllLack [] = Unit {0}
AllLack (d ∷ ds) = Lacks d × AllLack ds

find_dirs-at :
    (path cs : List ℕ) (c : ℕ)
    → (c == delimiter) ≡ true
    → find_dirs path (c ∷ cs) ≡ path ∷ find_dirs [] cs
unfolding find_dirs
find_dirs-at path cs c e = ground arith

find_dirs-after :
    (path cs : List ℕ) (c : ℕ)
    → (c == delimiter) ≡ false
    → find_dirs path (c ∷ cs) ≡ find_dirs (path ++ c ∷ []) cs
unfolding find_dirs
find_dirs-after path cs c e = ground arith

glue-find_dirs : (path s : List ℕ) → glue (find_dirs path s) ≡ delimiter ∷ path ++ s
unfolding glue
glue-find_dirs path [] = unfold find_dirs in refl
glue-find_dirs path (c ∷ cs) = elim (Bool-cases (c == delimiter)) [
  | inl e ↦
      let same : c ≡ delimiter = (==_iff c delimiter).0 e in
      let rest = ap (λ t. delimiter ∷ path ++ t) (glue-find_dirs [] cs) in
      rw (find_dirs-at path cs c e) (rw same rest)
  | inr e ↦
      rw (find_dirs-after path cs c e) (
        glue-find_dirs (path ++ c ∷ []) cs
        ∙ ap (λ t. delimiter ∷ t) (append_assoc path (c ∷ []) cs))
]

glue-join : (path s : List ℕ) → glue (find_dirs path s) ≡ delimiter ∷ join (find_dirs path s)
unfolding glue join
glue-join path [] = unfold find_dirs in refl
glue-join path (c ∷ cs) = elim (Bool-cases (c == delimiter)) [
  | inl e ↦ rw (find_dirs-at path cs c e) refl
  | inr e ↦ rw (find_dirs-after path cs c e) (glue-join (path ++ c ∷ []) cs)
]

Lacks-snoc : (path : List ℕ) (c : ℕ) → Lacks path → c ≢ delimiter → Lacks (path ++ c ∷ [])
unfolding Lacks
Lacks-snoc [] c h ne = (ne, _)
Lacks-snoc (d ∷ path) c (hd, h) ne = (hd, Lacks-snoc path c h ne)

find_dirs-AllLack : (path s : List ℕ) → Lacks path → AllLack (find_dirs path s)
unfolding AllLack Lacks
find_dirs-AllLack path [] h = unfold find_dirs in (h, _)
find_dirs-AllLack path (c ∷ cs) h = elim (Bool-cases (c == delimiter)) [
  | inl e ↦ rw (find_dirs-at path cs c e) (h, find_dirs-AllLack [] cs _)
  | inr e ↦
      let ne : c ≢ delimiter = ground arith in
      rw (find_dirs-after path cs c e)
        (find_dirs-AllLack (path ++ c ∷ []) cs (Lacks-snoc path c h ne))
]

-- The directories that are found in a text have no colon in them, and joining them with colons gives
-- the text back.
pub join-find_dirs : (s : List ℕ) → (join (find_dirs [] s) ≡ s) × AllLack (find_dirs [] s)
unfolding Lacks
join-find_dirs s = (ap tail (sym (glue-join [] s) ∙ glue-find_dirs [] s), find_dirs-AllLack [] s _)
  where
    tail : List ℕ → List ℕ
    tail [] = []
    tail (x ∷ xs) = xs
