-- ===== src/Dsm/Timer/Due.antt =====
-- When a callout falls due: the number of ticks, calls of process_timer, until it is called.
use code_snippets.Dsm.Timer.Ops.{slot_of}
use code_snippets.Dsm.Timer.{callwheelsize}
use code_snippets.Prelude.Int.{pos}
use code_snippets.Prelude.{
  false, ◌≢◌, ◌≡◌, ◌==◌, ◌<◌, ◌/◌, ◌-◌, ◌+◌, ◌*◌, ◌%◌, ℕ, suc, leb, if◌then◌else◌, arith,
}

-- Ticks until the wheel's index is at `slot`, from 1 to the size of the wheel.
unfoldable pub distance : ℕ → ℕ → ℕ
distance index slot = (slot + callwheelsize - index - 1) % callwheelsize + 1

-- Ticks until a callout in `slot` with this period is called.
unfoldable pub due : ℕ → ℕ → ℕ → ℕ
unfolding distance
due index slot period = distance index slot + callwheelsize * period

-- The index after a tick.
abbrev pub tick : ℕ → ℕ
tick index = if leb callwheelsize (suc index) then 0 else suc index

pub tick-lt : (index : ℕ) → index < callwheelsize → tick index < callwheelsize
tick-lt index h = ground arith

pub slot_of-lem :
    (index offset : ℕ)
    → index < callwheelsize
    → offset < callwheelsize
    → slot_of index offset ≡ pos ((index + offset) % callwheelsize)
unfolding slot_of
slot_of-lem index offset h k = ground arith

-- Where callout_set puts a callout of that many ticks, it falls due after them, or a whole rotation
-- late.
pub due-slot :
    (index ticks : ℕ)
    → index < callwheelsize
    → due index ((index + ticks % callwheelsize) % callwheelsize) (ticks / callwheelsize)
      ≡ ticks + (if ticks % callwheelsize == 0 then callwheelsize else 0)
unfolding due
due-slot index ticks h = ground arith

-- A tick that does not reach the slot brings the callout one tick nearer.
pub due-tick-elsewhere :
    (index slot period : ℕ)
    → index < callwheelsize
    → slot < callwheelsize
    → tick index ≢ slot
    → due index slot period ≡ suc (due (tick index) slot period)
unfolding due
due-tick-elsewhere index slot period h k e = ground arith

-- So does one that reaches the slot and takes a rotation off the period.
pub due-tick-here :
    (index period : ℕ)
    → index < callwheelsize
    → due index (tick index) (suc period) ≡ suc (due (tick index) (tick index) period)
unfolding due
due-tick-here index period h = ground arith

pub due-now : (index : ℕ) → index < callwheelsize → due index (tick index) 0 ≡ 1
unfolding due
due-now index h = ground arith

pub due-one :
    (index period : ℕ)
    → index < callwheelsize
    → (due index (tick index) period == 1) ≡ (period == 0)
unfolding due
due-one index period h = ground arith

pub due-later :
    (index period : ℕ)
    → index < callwheelsize
    → (period == 0) ≡ false
    → suc (due (tick index) (tick index) (period - 1)) ≡ due index (tick index) period
unfolding due
due-later index period h e = ground arith
