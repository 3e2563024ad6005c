-- ===== src/Progress/Conversion.antt =====
-- The two interfaces carry the same reports, and the store repeats the last one.
use scroom.Common.{◌≡◌, refl}
use scroom.Progress.{
  Call, set_idle, set_waiting, set_working, set_finished, Store, to_state, from_state, set_progress,
  tell_store, init,
}

module _ {Double : Type 0} where
  -- A call that goes through the other interface and back comes out as it was, and so does the
  -- call that a store makes on a new child after it got that call.
  pub calls-roundtrip :
      (nothing all : Double) (call : Call Double) (store : Store Double)
      → (let (s, p) = to_state nothing all call in from_state s p ≡ call)
        × (init (tell_store nothing all call store) ≡ call)
  unfolding to_state from_state tell_store init set_progress
  calls-roundtrip nothing all set_idle store = (refl, refl)
  calls-roundtrip nothing all (set_waiting p) store = (refl, refl)
  calls-roundtrip nothing all (set_working p) store = (refl, refl)
  calls-roundtrip nothing all set_finished store = (refl, refl)
