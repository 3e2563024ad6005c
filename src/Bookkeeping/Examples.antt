-- ===== src/Bookkeeping/Examples.antt =====
-- The entry for key 7 is removed and made again, and the token of the first one is deleted after that.
use scroom.Common.{arith, ℕ, ◌≡◌, refl, some, List, [], ◌∷◌}
use scroom.Bookkeeping.{
  Step, re_reserves, releases, destroys, sets, empty, run, get, set, step, re_reserve, release,
  destroy, create_value, create_token, remove_expired, is_value_alive, any_below, remove, removes,
}
use scroom.Bookkeeping.Lifetime.{any_removes, get-alive}

abbrev earlier : List (Step ℕ)
earlier = re_reserves 0 7 ∷ sets 7 5 ∷ removes 7 ∷ []

abbrev later : List (Step ℕ)
later = re_reserves 0 7 ∷ releases 0 ∷ destroys 0 ∷ removes 3 ∷ []

get-alive_example :
    let m = run later (run earlier (empty 0)) in
    get (m.token_key 1) m ≡ some (m.values (m.token_value 1))
unfolding run step re_reserve release destroy create_value create_token remove_expired
    is_value_alive set empty any_below remove any_removes
get-alive_example = get-alive 0 earlier later 1 refl (omega arith) refl
