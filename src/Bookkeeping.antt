-- ===== src/Bookkeeping.antt =====
-- libs/util/inc/scroom/impl/bookkeepingimpl.hh: a map whose entries live as long as their tokens.
-- Tokens and values are numbered as they are made. A token is deleted in two steps: its last
-- reference goes, so that weak pointers to it expire, and then its destructor removes the entry and
-- gives up the value; between the two, other threads may use the map. Each operation is one step,
-- since it has the lock of the map.
use scroom.Common.{
  ℕ, zero, suc, ◌+◌, Bool, true, false, not, ◌&&◌, ◌||◌, ◌==◌, if◌then◌else◌, Option, none, some,
  List, [], ◌∷◌,
}
pub mod Lifetime
mod Examples

pub data Stage : Type 0 where
  unused alive dying gone : Stage

abbrev pub is_alive : Stage → Bool
is_alive alive = true
is_alive _ = false

-- A token that is not deleted yet holds its value.
abbrev pub is_holding : Stage → Bool
is_holding alive = true
is_holding dying = true
is_holding _ = false

-- `map`: the weak pointers to values, by key. `value_token`: the field `token` of a value.
pub record MapBase (V : Type 0) : Type 0 where
  pub map : ℕ → Option ℕ
  pub value_token : ℕ → ℕ
  pub values : ℕ → V
  pub stage : ℕ → Stage
  pub token_key : ℕ → ℕ
  pub token_value : ℕ → ℕ
  pub next_token : ℕ
  pub next_value : ℕ

abbrev pub set_at {ℓ} : {A : Type ℓ} → ℕ → A → (ℕ → A) → ℕ → A
set_at i a f j = if j == i then a else f j

unfoldable pub any_below : ℕ → (ℕ → Bool) → Bool
any_below zero p = false
any_below (suc n) p = p n || any_below n p

module _ {V : Type 0} where
  -- A weak pointer to the value can be locked.
  pub is_value_alive : MapBase V → ℕ → Bool
  is_value_alive m v =
      any_below m.next_token (λ t. is_holding (m.stage t) && (m.token_value t == v))

  -- MapTokenImpl::create, `t.add(pv)` and `pv->token = t`
  pub create_token : ℕ → ℕ → MapBase V → MapBase V
  create_token k v m =
      let t = m.next_token in
      record m {
        stage = set_at t alive m.stage;
        token_key = set_at t k m.token_key;
        token_value = set_at t v m.token_value;
        value_token = set_at v t m.value_token;
        next_token = suc t;
      }

  -- `map[k] = ValueType<V>::create(V())`, with a token
  pub create_value : V → ℕ → MapBase V → MapBase V
  create_value default k m =
      let v = m.next_value in
      create_token k v (record m {
        map = set_at k (some v) m.map;
        values = set_at v default m.values;
        next_value = suc v;
      })

  -- The result is the map, and the token. An exception is `none`.
  pub reserve : V → ℕ → MapBase V → Option (MapBase V × ℕ)
  reserve default k m = elim (m.map k) [
    | some v ↦ none
    | none ↦ some (create_value default k m, m.next_token)
  ]

  pub re_reserve : V → ℕ → MapBase V → MapBase V × ℕ
  re_reserve default k m = elim (m.map k) [
    | none ↦ (create_value default k m, m.next_token)
    | some v ↦
        if is_value_alive m v
        then if is_alive (m.stage (m.value_token v))
          then (m, m.value_token v)
          else (create_token k v m, m.next_token)
        else (create_value default k m, m.next_token)
  ]

  -- remove(k, wt), as the destructor of a token calls it: wt cannot be locked, and is equal to the
  -- token of the entry when that cannot be locked either.
  pub remove_expired : ℕ → MapBase V → MapBase V
  remove_expired k m = elim (m.map k) [
    | none ↦ m
    | some v ↦
        if is_value_alive m v && is_alive (m.stage (m.value_token v))
        then m
        else record m { map = set_at k none m.map }
  ]

  -- The last reference to a token goes.
  pub release : ℕ → MapBase V → MapBase V
  release t m = if is_alive (m.stage t) then record m { stage = set_at t dying m.stage } else m

  -- The destructor of the token, which then gives up its value.
  pub destroy : ℕ → MapBase V → MapBase V
  destroy t m = elim (m.stage t) [
    | dying ↦
        let removed = remove_expired (m.token_key t) m in
        record removed { stage = set_at t gone removed.stage }
    | _ ↦ m
  ]

  -- remove(k)
  pub remove : ℕ → MapBase V → MapBase V
  remove k m = record m { map = set_at k none m.map }

  pub get : ℕ → MapBase V → Option V
  get k m = elim (m.map k) [
    | none ↦ none
    | some v ↦ if is_value_alive m v then some (m.values v) else none
  ]

  pub set : ℕ → V → MapBase V → Option (MapBase V)
  set k a m = elim (m.map k) [
    | none ↦ none
    | some v ↦ if is_value_alive m v then some (record m { values = set_at v a m.values }) else none
  ]

  pub empty : V → MapBase V
  empty default = record {
    map = λ k. none;
    value_token = λ v. 0;
    values = λ v. default;
    stage = λ t. unused;
    token_key = λ t. 0;
    token_value = λ t. 0;
    next_token = 0;
    next_value = 0;
  }

pub data Step (V : Type 0) : Type 0 where
  reserves re_reserves : V → ℕ → Step V
  sets : ℕ → V → Step V
  releases destroys removes : ℕ → Step V

module _ {V : Type 0} where
  -- A step that throws changes nothing.
  pub step : Step V → MapBase V → MapBase V
  step (reserves default k) m = elim (reserve default k m) [ none ↦ m | some r ↦ r.0 ]
  step (re_reserves default k) m = (re_reserve default k m).0
  step (sets k a) m = elim (set k a m) [ none ↦ m | some after ↦ after ]
  step (releases t) m = release t m
  step (destroys t) m = destroy t m
  step (removes k) m = remove k m

  pub run : List (Step V) → MapBase V → MapBase V
  run [] m = m
  run (s ∷ ss) m = run ss (step s m)
