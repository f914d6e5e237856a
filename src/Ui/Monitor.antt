-- ===== src/Ui/Monitor.antt =====
-- ui/ui.go: rectangles of the desktop, and monitors.
use go_xpra.Prelude.{Bool, ◌&&◌}
use go_xpra.Prelude.Int.{ℤ, pos, ltb_ℤ}
use go_xpra.Prelude.Bytes.{Bytes}

pub record Rectangle : Type 0 where
  pub x : ℤ
  pub y : ℤ
  pub width : ℤ
  pub height : ℤ

pub record Monitor : Type 0 where
  pub name : Bytes
  pub manufacturer : Bytes
  pub model : Bytes
  pub subpixel_layout : Bytes
  pub geometry : Rectangle
  pub work_area : Rectangle
  pub width_mm : ℤ
  pub height_mm : ℤ
  pub refresh_rate : ℤ
  pub scale_factor : ℤ
  pub primary : Bool

unfoldable pub valid : Rectangle → Bool
valid r = ltb_ℤ (pos 0) r.width && ltb_ℤ (pos 0) r.height
