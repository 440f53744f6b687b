-- ===== src/StreamList/Stats.antt =====
-- StatsStreamList.h and StatsStreamList.cpp: the subclass that measures a rate. Its methods act on
-- the added fields and the time stamp; a lock is held for each write and has no counterpart here.
use str_manager.Prelude.{ℕ, ◌+◌, ◌-◌, ◌%◌, Option, none, some, leb, if◌then◌else◌}
use str_manager.Int.{ℤ, pos, negsuc, div_by, to_u32, to_s32}
use str_manager.System.{System}
use str_manager.StreamList.{StreamList, Rates, update_time_stamp}
use str_manager.StreamList

-- `a + b` on 32 bits, read as `int` again.
unfoldable pub add_s32 : ℤ → ℤ → ℤ
add_s32 a b = to_s32 ((to_u32 a + to_u32 b) % 0x1_0000_0000)

-- `(int) difftime(now, then)`
unfoldable pub diff_time : ℕ → ℕ → ℤ
diff_time now start = if leb start now then pos (now - start) else negsuc (start - now - 1)

-- `StatsStreamList()`
unfoldable pub new : {S : Type 0} → System S → S → StreamList × S
unfolding update_time_stamp
new sys s =
    update_time_stamp sys
      (record (StreamList.new sys s) {
        rates = some (record { actual_rate = pos 0; limit_rate = pos 0; input_bytes = pos 0 });
      })
      s

-- `calculateRate(diff)`, which its caller calls above 10 only.
unfoldable pub calculate_rate : Rates → ℕ → Rates
calculate_rate r diff = record r {
  actual_rate = div_by (div_by r.input_bytes 125) diff;
  input_bytes = pos 0;
}

unfoldable pub update_input_bytes : Rates → ℤ → Rates
update_input_bytes r length = record r { input_bytes = add_s32 r.input_bytes length }

-- The body of `if (diff > 10)`.
abbrev pub above_ten : ℤ → Option ℕ
above_ten (pos n) = if leb n 10 then none else some n
above_ten (negsuc n) = none

-- `update()` on an object of the subclass; the value it should return is never set or read.
unfoldable pub update : {S : Type 0} → System S → StreamList → Rates → S → StreamList × S
unfolding calculate_rate diff_time
update sys l r s =
    let (now, s') = sys.time s in
    elim (above_ten (diff_time now l.time_stamp)) [
      | none ↦ (l, s')
      | some diff ↦ update_time_stamp sys (record l { rates = some (calculate_rate r diff) }) s'
    ]
