-- ===== src/Counters/Examples.antt =====
-- Tests of the counters of src/atomic.h.
use vpu.Common.{◌≡◌, refl, true, [], ◌∷◌, ◌^◌, ◌-◌}
use vpu.Counters.{
  atomic16_t, atomic32_t, atomic64_t, atomic_add, atomic_sub, atomic_inc, atomic_dec,
  atomic_add_return, atomic_sub_return, atomic_inc_and_test, add, sub, apply_all,
}
use vpu.Counters.Order.{turn, apply_all-order}

inc_and_test_test : atomic_inc_and_test atomic32_t (2 ^ 32 - 1) ≡ (0, true)
unfolding atomic_inc_and_test
inc_and_test_test = refl

dec_test : atomic_dec atomic16_t 0 ≡ 65535
unfolding atomic_dec atomic_sub
dec_test = refl

inc_test : atomic_inc atomic16_t 65535 ≡ 0
unfolding atomic_inc atomic_add
inc_test = refl

-- the upper half of the result is lost
add_return_test : atomic_add_return atomic64_t (2 ^ 32) 5 ≡ (4294967301, 5)
unfolding atomic_add_return
add_return_test = refl

sub_return_test : atomic_sub_return atomic64_t (2 ^ 32) 0 ≡ (4294967296, 0)
unfolding atomic_sub_return
sub_return_test = refl

order_test :
    apply_all atomic64_t (sub 1 ∷ add 2 ∷ []) 0 ≡ apply_all atomic64_t (add 2 ∷ sub 1 ∷ []) 0
order_test = apply_all-order atomic64_t 0 (turn (sub 1) (add 2) [])
