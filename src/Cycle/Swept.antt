-- ===== src/Cycle/Swept.antt =====
-- What the sweep of all slots in `cycle_thread` of src/cycle_operation.c does to each of them.
use vpu.Common.{◌≡◌, Bool, false, List, [], ◌∷◌, ◌||◌}
use vpu.Voice.{VoiceFile}
use vpu.Voice.Slots.{Slot, same_slot}
use vpu.Voice.Release.{Released}

abbrev listed : Slot → List Slot → Bool
listed t [] = false
listed t (s ∷ ss) = same_slot s t || listed t ss

-- What a slot is like when a sweep has ended its call.
pub record Ended (f : VoiceFile) : Type 0 where
  pub released : Released f
  pub no_more : f.update_time ≡ 0
