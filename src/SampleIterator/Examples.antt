-- ===== src/SampleIterator/Examples.antt =====
-- Samples of four bits: three further, and the other one of a byte.
use scroom.Common.{if◌then◌else◌, inl, inr, ◌≡◌, refl, arith}
use scroom.SampleIterator.{get, set, equals, SampleIterator, create}
use scroom.SampleIterator.Bits.{get-set}

abbrev second : SampleIterator
second = record { bps = 4; samples_per_base = 2; current_base = 0; current_offset = 0 }

create_test : create 0 1 4 ≡ second
unfolding create
create_test = refl

abbrev first : SampleIterator
first = record { bps = 4; samples_per_base = 2; current_base = 0; current_offset = 1 }

get-set_example :
    get first (set 9 second (λ base. 100))
    ≡ (if equals first second then 9 else get first (λ base. 100))
get-set_example =
    get-set second first (λ base. 100) 9 (inr (inr (inl refl))) refl (omega arith) (omega arith)
      (omega arith) (omega arith)
