-- ===== src/Ui/Tests.antt =====
-- Runs of the event queue and of the size checks, and the theorems at concrete inputs.
use go_xpra.Prelude.{◌^◌, ◌≤◌, ◌≡◌, ◌⊎◌, refl, true, false, List, [], ◌∷◌, ◌++◌, none, some, All}
use go_xpra.Prelude.Int.{ℤ, pos, ◌≤ℤ◌, ◌<ℤ◌}
use go_xpra.Ui.Event.{Event}
use go_xpra.Ui.Queue.{
  EventQueue, new_event_queue, is_coalescible, can_coalesce, push, push_locked, replace_last,
  evict_first,
}
use go_xpra.Ui.Queue.Laws.{important}
use go_xpra.Ui.Queue.Order.{Call, pushes, pops, pushed, run, push_wakes, run_keeps_important}
use go_xpra.Prelude.{ℕ, ◌≢◌, arith}
use go_xpra.Prelude.Bytes.{codes, bytes_eq}
use go_xpra.Ui.Keys.{keysym_name, keysym_for, name_of_code, code_of_name}
use go_xpra.Prelude.Bytes.{Bytes, overwrite}
use go_xpra.Prelude.Result.{err, ok}
use go_xpra.Ui.Pixels.{
  Converter, out_of_range, is_short, rows_inside, converter_for, expand_rgb, source_row,
  convert_rows, convert_with, convert,
}
use go_xpra.Ui.Pixels.Convert.{Converted, convert-Converted}
use go_xpra.Ui.Geometry.{Clips, clip_damage, clip_damage_lem}
use go_xpra.Ui.Image.{Cursor, validate_cursor, check_image}

abbrev motion_at : ℤ → Event
motion_at x = Event.motion 1 x (pos 0)

-- A full queue: a motion that can be replaced, and an event that must be kept.
abbrev full : EventQueue
full = record {
  pending = motion_at (pos 3) ∷ Event.close_request 1 ∷ [];
  max_pending = 2;
  wake = false;
}

push_motion :
    (push full (motion_at (pos 4))).pending ≡ motion_at (pos 4) ∷ Event.close_request 1 ∷ []
unfolding push push_locked replace_last is_coalescible can_coalesce
push_motion = refl

push_key : (push full (Event.focus 2)).pending ≡ Event.close_request 1 ∷ Event.focus 2 ∷ []
unfolding push push_locked evict_first is_coalescible
push_key = refl

push_wakes_example :
    ((push full (motion_at (pos 4))).wake ≡ true)
    ⊎ ((push full (motion_at (pos 4)) ≡ full)
        × (is_coalescible (motion_at (pos 4)) ≡ true)
        × (2 ≤ 2)
        × All (λ x. can_coalesce x (motion_at (pos 4)) ≡ false) full.pending)
push_wakes_example = push_wakes full (motion_at (pos 4))

abbrev calls : List Call
calls = pushes (motion_at (pos 1)) ∷ pushes (Event.focus 1) ∷ pops ∷ pushes (Event.focus 2) ∷ []

run_keeps_important_example :
    important ((run calls (new_event_queue 1)).1 ++ (run calls (new_event_queue 1)).0.pending)
    ≡ important (pushed calls)
run_keeps_important_example = run_keeps_important 1 calls

clip_damage_lem_example :
    ((clip_damage (pos 5) (pos 5) (pos 10) (pos 3) (pos 12) (pos 9) ≡ none)
      × ((pos 5 <ℤ pos 0) ⊎ (pos 5 <ℤ pos 0)))
    ⊎ ((size : ℤ × ℤ) × (clip_damage (pos 5) (pos 5) (pos 10) (pos 3) (pos 12) (pos 9) ≡ some size)
        × (pos 0 ≤ℤ pos 5)
        × (pos 0 ≤ℤ pos 5)
        × Clips (pos 5) (pos 5) (pos 10) (pos 3) (pos 12) (pos 9) size)
clip_damage_lem_example = clip_damage_lem (pos 5) (pos 5) (pos 10) (pos 3) (pos 12) (pos 9)

abbrev arrow : Cursor
arrow = record {
  pixels = 1 ∷ 2 ∷ 3 ∷ 4 ∷ 5 ∷ 6 ∷ 7 ∷ 8 ∷ [];
  width = pos 2;
  height = pos 1;
  hotspot_x = pos 1;
  hotspot_y = pos 0;
}

arrow_passes : validate_cursor arrow ≡ none
unfolding validate_cursor check_image
arrow_passes = refl

minus_named : keysym_name 0x2d ≢ []
unfolding keysym_name name_of_code
minus_named h = cc

minus_found : keysym_for (codes "minus") ≢ 0
unfolding keysym_for code_of_name bytes_eq
minus_found h = absurd (omega (arith, h))

-- Two rows of one RGB pixel, at a stride of 4, into a buffer of two pixels by two.
abbrev rgb_pixels : Bytes
rgb_pixels = 1 ∷ 2 ∷ 3 ∷ 0 ∷ 4 ∷ 5 ∷ 6 ∷ 0 ∷ []

abbrev window_before : Bytes
window_before = 9 ∷ 9 ∷ 9 ∷ 9 ∷ 8 ∷ 8 ∷ 8 ∷ 8 ∷ 7 ∷ 7 ∷ 7 ∷ 7 ∷ 6 ∷ 6 ∷ 6 ∷ 6 ∷ []

abbrev window_after : Bytes
window_after = 3 ∷ 2 ∷ 1 ∷ 0xff ∷ 8 ∷ 8 ∷ 8 ∷ 8 ∷ 6 ∷ 5 ∷ 4 ∷ 0xff ∷ 6 ∷ 6 ∷ 6 ∷ 6 ∷ []

convert_rgb : convert window_before 8 rgb_pixels (pos 4) 1 2 (codes "RGB") ≡ ok window_after
unfolding convert convert_with is_short rows_inside convert_rows converter_for expand_rgb source_row
    overwrite bytes_eq
convert_rgb = refl

convert-Converted_example :
    (c : Converter × ℕ) × (converter_for (codes "RGB") ≡ some c)
    × Converted c window_before 8 rgb_pixels 4 1 2 window_after
convert-Converted_example =
    convert-Converted window_before 8 rgb_pixels (pos 4) 1 2 (codes "RGB") window_after
      (omega arith) convert_rgb

-- A stride of 2 ^ 62, of which four make 0 in 64 bits, and the second row is out of range.
wrapped_stride :
    convert window_before 4 rgb_pixels (pos (2 ^ 62)) 1 4 (codes "RGB") ≡ err out_of_range
unfolding convert convert_with is_short rows_inside convert_rows converter_for bytes_eq
wrapped_stride = refl
