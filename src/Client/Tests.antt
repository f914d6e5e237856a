-- ===== src/Client/Tests.antt =====
-- client/: a desktop, a host and a session to run, and the theorems at them.
mod Contents
use go_xpra.Prelude.{
  ℕ, suc, ◌≤◌, ◌<◌, max, ◌≡◌, ◌≢◌, ◌⊎◌, inl, inr, refl, Bool, true, false, List, [], ◌∷◌, Option,
  none, some, ◌==◌, if◌then◌else◌, arith, take, Bool-cases,
}
use go_xpra.Prelude.Int.{ℤ, pos, negsuc, eqb_ℤ}
use go_xpra.Prelude.Bytes.{Bytes, codes, be_bytes, bytes_eq}
use go_xpra.Prelude.Result.{ok}
use go_xpra.Prelude.Table.{lookup, insert, int_key, nat_key}
use go_xpra.Rencode.Value.{Value, no_entries}
use go_xpra.Protocol.Packet.{Packet, at, or_nil, as_int, as_str, as_bytes, int, str, bytes, find}
use go_xpra.Ui.Monitor.{Rectangle}
use go_xpra.Ui.Event.{Event}
use go_xpra.Client.Image.{Rgba, Picture, Format}
use go_xpra.Client.State.{Action, sent, created, destroyed, Platform, Windows, Session}
use go_xpra.Client.Windows.Linked.{live}
use go_xpra.Client.Windows.Keeps.{Fresh}
use go_xpra.Client.Hello.{Host}
use go_xpra.Client.Hello.Display.{send_hello}
use go_xpra.Client.Run.{Step, Reach, begun, next, packet, event, new_session}
use go_xpra.Client.Run.Invariant.{reach-IsSound}
use go_xpra.Client.Run.Sound.{IsSound}
use go_xpra.Client.Dispatch.{handle_packet, handle_ui_event}
use go_xpra.Client.Draw.{draw_of, handle_draw}
use go_xpra.Client.Draw.Answers.{IsAnswered, handle_draw-IsAnswered}
use go_xpra.Client.Local.{
  resolve_in, resolve, is_iconified, handle_minimized, send_iconified, unmap_packet,
}
use go_xpra.Client.Focus.{focus_packet, handle_focus, handle_focus_lost, send_focus_lost}
use go_xpra.Client.Run.Reports.{iconify_reported, handle_focus_lost-Step, handle_minimized-Step}

-- A backend that numbers its windows.
abbrev highest : List Action → ℕ
highest [] = 0
highest (created v r o ∷ log) = max v (highest log)
highest (_ ∷ log) = highest log

live-highest : (log : List Action) (w : ℕ) → live log w ≡ true → w ≤ highest log
unfolding live
live-highest [] w e = cc
live-highest (created v r o ∷ log) w e = elim (Bool-cases (live log w)) [
  | inl f ↦ omega (arith, live-highest log w f)
  | inr f ↦ ground arith
]
live-highest (destroyed v ∷ log) w e = elim (Bool-cases (live log w)) [
  | inl f ↦ live-highest log w f
  | inr f ↦ ground arith
]
live-highest (_ ∷ log) w e = live-highest log w e

abbrev grey : Picture
grey = record {
  min_x = pos 0;
  min_y = pos 0;
  width = pos 2;
  height = pos 1;
  colour = λ x y. record { r = 0x8080; g = 0x8080; b = 0x8080; a = 0xffff };
  samples = none;
  alpha = none;
}

abbrev desk : Platform
desk = record {
  compatible = true;
  put = be_bytes 4;
  new_window = λ log r o. some (suc (highest log));
  geometry = λ log w. record { x = pos 0; y = pos 0; width = pos 4; height = pos 3 };
  stateful = λ w. false;
  fails = λ log. false;
  error_text = λ log. [];
  window_states = [];
  desktop_size = λ log. none;
  monitors = λ log. none;
  decode_config = λ f area. some (pos 2, pos 1);
  decode = λ f area. some grey;
  describe_image = λ e. [];
  describe_chunks = λ e. [];
  elapsed = λ log. pos 0;
}

abbrev machine : Host
machine = record {
  hmac_sha256 = λ key message. key;
  sha256 = λ b. b;
  random = λ purpose log n. some (7 ∷ []);
  hostname = none;
  read_file = λ path. none;
  trim_space = λ b. b;
  getenv = λ name. [];
  prompt = none;
  mmap_file = [];
}

desk-Fresh : Fresh desk
unfolding Fresh
desk-Fresh log r o w e = elim (Bool-cases (live log w)) [
  | inr f ↦ f
  | inl f ↦
      let found : Option ℕ = some w in
      let q : some (suc (highest log)) ≡ found = e in
      let same : suc (highest log) ≡ w = cc in absurd (omega (arith, live-highest log w f, same))
]

abbrev first_session : Session
first_session = new_session true [] (codes "secret") none

abbrev new_window_packet : Packet
new_window_packet =
    Value.text (codes "new-window")
    ∷ Value.int (pos 9)
    ∷ Value.int (pos 1)
    ∷ Value.int (pos 2)
    ∷ Value.int (pos 4)
    ∷ Value.int (pos 3)
    ∷ Value.map_text no_entries
    ∷ []

reach-IsSound_example :
    IsSound
      (handle_packet desk machine new_window_packet (send_hello desk machine [] [] first_session))
reach-IsSound_example =
    reach-IsSound desk machine desk-Fresh
      (handle_packet desk machine new_window_packet (send_hello desk machine [] [] first_session))
      (next (send_hello desk machine [] [] first_session)
        (handle_packet desk machine new_window_packet (send_hello desk machine [] [] first_session))
        (begun true [] (codes "secret") none) (packet new_window_packet))

-- Two windows, the first one focused.
abbrev two_windows : Session
two_windows = record first_session {
  table = record {
    windows = (pos 9, 1) ∷ (pos 5, 2) ∷ [];
    by_local = (1, pos 9) ∷ (2, pos 5) ∷ [];
    iconified = [];
    server_iconic = [];
    focused = pos 9;
  };
}

abbrev draw_packet : Packet
draw_packet =
    Value.text (codes "draw")
    ∷ Value.int (pos 9)
    ∷ Value.int (pos 0)
    ∷ Value.int (pos 0)
    ∷ Value.int (pos 2)
    ∷ Value.int (pos 1)
    ∷ Value.text (codes "png")
    ∷ Value.binary (1 ∷ 2 ∷ [])
    ∷ Value.int (pos 3)
    ∷ []

handle_draw-IsAnswered_example :
    IsAnswered desk (draw_of draw_packet) two_windows (handle_draw desk draw_packet two_windows)
handle_draw-IsAnswered_example = handle_draw-IsAnswered desk draw_packet two_windows

first_known : resolve two_windows 1 ≡ some (pos 9, 1)
unfolding resolve resolve_in lookup
first_known = refl

second_known : resolve two_windows 2 ≡ some (pos 5, 2)
unfolding resolve resolve_in lookup
second_known = refl

not_minimized : is_iconified (pos 9) two_windows ≡ false
unfolding is_iconified lookup
not_minimized = refl

five-ne-zero : pos 5 ≢ pos 0
five-ne-zero e = absurd cc

handle_focus_lost-Step_example :
    ((handle_focus_lost 1 two_windows).log ≡ [])
    × (Step desk machine
          (handle_focus_lost 1 two_windows)
          (send_focus_lost (handle_focus_lost 1 two_windows))
        × ((send_focus_lost (handle_focus_lost 1 two_windows)).focus_timers ≡ 0))
    × ((send_focus_lost (handle_focus_lost 1 two_windows)).log ≡ sent (focus_packet (pos 0)) ∷ [])
    × (Step desk machine
          (handle_focus 2 (handle_focus_lost 1 two_windows))
          (send_focus_lost (handle_focus 2 (handle_focus_lost 1 two_windows)))
        × ((send_focus_lost (handle_focus 2 (handle_focus_lost 1 two_windows))).focus_timers ≡ 0))
    × ((send_focus_lost (handle_focus 2 (handle_focus_lost 1 two_windows))).log
        ≡ sent (focus_packet (pos 5)) ∷ [])
handle_focus_lost-Step_example =
    handle_focus_lost-Step desk machine 1 2 (pos 9) (pos 5) 1 2 two_windows (inr (refl, refl))
      first_known second_known refl five-ne-zero

abbrev minimized_first : Session
minimized_first = handle_minimized desk 1 true two_windows

abbrev restored_first : Session
restored_first = handle_minimized desk 1 false minimized_first

handle_minimized-Step_example :
    (lookup two_windows.table.server_iconic (pos 9) ≢ some true
      → (minimized_first.log ≡ [])
        × Step desk machine minimized_first (iconify_reported (pos 9) two_windows minimized_first)
        × ((iconify_reported (pos 9) two_windows minimized_first).log
            ≡ sent (unmap_packet (pos 9)) ∷ [])
        × Step desk machine restored_first (iconify_reported (pos 9) two_windows restored_first)
        × ((iconify_reported (pos 9) two_windows restored_first).log ≡ restored_first.log))
    × (lookup two_windows.table.server_iconic (pos 9) ≡ some true
        → (minimized_first.log ≡ []) × (minimized_first.iconify_timers ≡ []))
handle_minimized-Step_example =
    handle_minimized-Step desk machine 1 (pos 9) 1 two_windows first_known not_minimized
