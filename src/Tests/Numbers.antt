-- ===== src/Tests/Numbers.antt =====
-- Runs on numbers: integer terminals, at two terminals and an inner node, and the saturating
-- numbers at 64 bits.
use oxidd.Saturating.{
  Clamps, saturating_operations-Clamps, saturating_shl, saturating_shr, saturating_add,
}
use oxidd.Prelude.{
  none, ◌+◌, ◌-◌, arith, ◌^◌, ◌≡◌, ◌≢◌, refl, zero, suc, Bool, true, false, some, if◌then◌else◌,
}
use oxidd.Tree.{Assignment}
use oxidd.Manager.{Edge}
use oxidd.Mtbdd.Integer.{pos, negsuc, ◌+ℤ◌, ◌*ℤ◌, in_range, is_negative}
use oxidd.Mtbdd.Int64.{Int64, num, plus_inf, minus_inf, add, sub, mul, div}
use oxidd.Mtbdd.Int64.Laws.{IsI64, add-num, mul-num, operations-IsI64}
use oxidd.Mtbdd.Int64.Laws.{partial_cmp-equal}
use oxidd.Mtbdd.Int64.{partial_cmp, equal}
use oxidd.Prelude.{◌↔◌}
use oxidd.Mtbdd.Int64.Number.{int64_number, int64_number-IsNumber}
use oxidd.Mtbdd.Terminal.{MtNode, inner, terminal, binary, terminal_bin, extremum_cases, min, max}
use oxidd.Mtbdd.Terminal.{add as op_add, sub as op_sub, mul as op_mul, div as op_div}
use oxidd.Mtbdd.Terminal.Laws.{IsValue, FitsBin, terminal_bin-FitsBin, terminal_bin_sub-FitsBin}
use oxidd.Mtbdd.Terminal.Extremum.{lesser, greater_of, terminal_bin_extremum-FitsBin}
use oxidd.Mtbdd.Int64.Order.{int64_number-IsCompared}

-- Edge 0 is the number 7, every other edge a node that selects between 2 and -3.
abbrev nodes : Edge → MtNode Int64
nodes zero = terminal (num (pos 7))
nodes (suc e) = inner

abbrev values : Edge → Assignment → Int64
values zero r = num (pos 7)
values (suc e) r = if r 0 then num (pos 2) else num (negsuc 2)

values-IsValue : IsValue int64_number int64_number-IsNumber nodes values
values-IsValue = record { at_terminal = λ e t h r. at e h r; valid = valid }
  where
    at : (e : Edge) {t : Int64} → nodes e ≡ terminal t → (r : Assignment) → values e r ≡ t
    at zero h r = ground arith
    at (suc e) h r = absurd (cc)

    valid : (e : Edge) (r : Assignment) → IsI64 (values e r)
    valid zero r = refl
    valid (suc e) r = chosen (r 0)
      where
        chosen : (b : Bool) → IsI64 (if b then num (pos 2) else num (negsuc 2))
        chosen true = refl
        chosen false = refl

add_example : add (num (pos (2 ^ 62))) (num (pos (2 ^ 62))) ≡ (
    if in_range (pos (2 ^ 62) +ℤ pos (2 ^ 62))
    then num (pos (2 ^ 62) +ℤ pos (2 ^ 62))
    else plus_inf)
add_example = add-num (pos (2 ^ 62)) (pos (2 ^ 62)) refl refl

mul_example : mul (num (negsuc 4)) (num (pos 6)) ≡ (
    if in_range (negsuc 4 *ℤ pos 6)
    then num (negsuc 4 *ℤ pos 6)
    else if is_negative (negsuc 4 *ℤ pos 6)
    then minus_inf
    else plus_inf)
mul_example = mul-num (negsuc 4) (pos 6)

range_example :
    IsI64 (add (num (negsuc 4)) (num (pos 6)))
    × IsI64 (sub (num (negsuc 4)) (num (pos 6)))
    × IsI64 (mul (num (negsuc 4)) (num (pos 6)))
    × IsI64 (div (num (negsuc 4)) (num (pos 6)))
range_example = operations-IsI64 (num (negsuc 4)) (num (pos 6)) refl refl

order_example :
    (partial_cmp (num (negsuc 4)) (num (pos 6)) ≡ some equal) ↔ (num (negsuc 4) ≡ num (pos 6))
order_example = partial_cmp-equal (num (negsuc 4)) (num (pos 6))

arithmetic_example :
    FitsBin int64_number int64_number-IsNumber nodes values values-IsValue 0 1
      (int64_number.add)
      op_add
      (terminal_bin int64_number nodes op_add 0 1)
    × FitsBin int64_number int64_number-IsNumber nodes values values-IsValue 0 1
        (int64_number.mul)
        op_mul
        (terminal_bin int64_number nodes op_mul 0 1)
    × FitsBin int64_number int64_number-IsNumber nodes values values-IsValue 0 1
        (int64_number.div)
        op_div
        (terminal_bin int64_number nodes op_div 0 1)
arithmetic_example =
    terminal_bin-FitsBin int64_number int64_number-IsNumber nodes values values-IsValue 0 1

no_zero : nodes 0 ≢ terminal int64_number.zero
unfolding int64_number
no_zero h = absurd (ground arith)

subtraction_example :
    FitsBin int64_number int64_number-IsNumber nodes values values-IsValue 0 1
      (int64_number.sub)
      op_sub
      (terminal_bin int64_number nodes op_sub 0 1)
subtraction_example =
    terminal_bin_sub-FitsBin int64_number int64_number-IsNumber nodes values values-IsValue 0 1
      no_zero

extremum_example :
    FitsBin int64_number int64_number-IsNumber nodes values values-IsValue 1 2
      (lesser int64_number)
      min
      (terminal_bin int64_number nodes min 1 2)
    × FitsBin int64_number int64_number-IsNumber nodes values values-IsValue 1 2
        (greater_of int64_number)
        min
        (terminal_bin int64_number nodes max 1 2)
extremum_example =
    terminal_bin_extremum-FitsBin int64_number int64_number-IsNumber nodes values
      int64_number-IsCompared values-IsValue 1 2

-- The maximum of two inner nodes goes on with the minimum.
recurses : terminal_bin int64_number nodes max 1 2 ≡ some (binary min 1 2)
unfolding terminal_bin extremum_cases
recurses = refl

saturating_example : Clamps 64 100 (2 ^ 63 + 5) 3
saturating_example = saturating_operations-Clamps 64 100 (2 ^ 63 + 5) 3

-- The bits that a left shift moves out of the number are lost.
lost_bits : saturating_shl 64 (2 ^ 40) 40 ≡ 0
unfolding saturating_shl
lost_bits = refl

-- A number that is out of bounds does not stay so when it is shifted to the left.
out_of_bounds_shifted : saturating_shl 64 (2 ^ 64 - 1) 1 ≡ 2 ^ 64 - 2
unfolding saturating_shl
out_of_bounds_shifted = refl

-- A shift to the right by as many bits as the number has, and a sum that is out of bounds.
checked_shifts :
    (saturating_shr 64 100 3 ≡ some 12)
    × (saturating_shr 64 100 64 ≡ none)
    × (saturating_shr 64 (saturating_add 64 (2 ^ 63) (2 ^ 63)) 64 ≡ some (2 ^ 64 - 1))
unfolding saturating_shr saturating_add
checked_shifts = (refl, refl, refl)
