-- ===== src/Client/Monitor/Tests.antt =====
-- client/monitor.go: the theorems at concrete inputs.
use go_xpra.Prelude.{◌≡◌, refl, true, List, [], ◌∷◌, some}
use go_xpra.Prelude.Int.{ℤ, pos, negsuc, ◌+ℤ◌, ◌-ℤ◌}
use go_xpra.Prelude.Bytes.{codes}
use go_xpra.Ui.Monitor.{Monitor}
use go_xpra.Client.Monitor.{monitor_relative_position, contains, relative_from}

abbrev screen : ℤ → Monitor
screen left = record {
  name = codes "screen";
  manufacturer = [];
  model = [];
  subpixel_layout = [];
  geometry = record { x = left; y = pos 0; width = pos 100; height = pos 50 };
  work_area = record { x = left; y = pos 0; width = pos 100; height = pos 40 };
  width_mm = pos 0;
  height_mm = pos 0;
  refresh_rate = pos 60000;
  scale_factor = pos 1;
  primary = true;
}

-- Two screens side by side, the first one left of the origin.
abbrev screens : List Monitor
screens = screen (negsuc 99) ∷ screen (pos 0) ∷ []

relative_second : monitor_relative_position screens (pos 7) (pos 8) ≡ some (1, pos 7, pos 8)
unfolding monitor_relative_position relative_from contains ◌+ℤ◌ ◌-ℤ◌
relative_second = refl
