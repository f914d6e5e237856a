-- ===== src/Client/Draw/Answers.antt =====
-- client/client.go: how `handleDraw` answers.
use go_xpra.Prelude.{
  ℕ, ◌≡◌, ◌⊎◌, inl, inr, refl, sym, subst, Bool, true, false, List, [], ◌∷◌, ◌++◌, Option, none,
  some, arith, Bool-cases, Option-cases,
}
use go_xpra.Prelude.Int.{ℤ, pos, ◌≤ℤ◌}
use go_xpra.Prelude.Bytes.{Bytes, codes, bytes_eq}
use go_xpra.Prelude.Result.{Result-cases}
use go_xpra.Prelude.Table.{lookup, int_key}
use go_xpra.Protocol.Packet.{Packet, find, or_nil}
use go_xpra.Client.Mmap.Area.{MmapArea, Release, end_of, read_chunks, release}
use go_xpra.Client.Mmap.Area.Updates.{read_chunks_lem}
use go_xpra.Client.State.{Action, sent, painted, released, Platform, Session, act}
use go_xpra.Client.Draw.{
  decode_error, decode_not_found, Draw, draw_of, ack_packet, release_area, release_pixels,
  options_chunks, layout, answer, paint_time, paint, draw_pixels, draw_window, draw_mmap,
  handle_draw,
}

-- A paint, and whether the backend accepted it.
abbrev pub Painted : Platform → Draw → Session → Bool → List Action → Type 0
Painted p d s failed calls =
    (window : ℕ) × (lookup s.table.windows d.wid ≡ some window)
    × ((pixels : Bytes) × (rowstride : ℤ) × (format : Bytes) × (calls
          ≡ painted window d.x d.y d.width d.height pixels rowstride format ∷ [])
        × (p.fails (calls ++ s.log) ≡ failed))

-- The code of the answer against what was done.
abbrev pub Verdict : Platform → Draw → Session → ℤ → List Action → Type 0
Verdict p d s code calls =
    ((code ≡ decode_not_found) × (lookup s.table.windows d.wid ≡ none) × (calls ≡ []))
    ⊎ ((code ≡ decode_error) × ((calls ≡ []) ⊎ Painted p d s true calls))
    ⊎ ((pos 1 ≤ℤ code) × Painted p d s false calls)

-- One answer, the last thing done; before it at most the release of what was read from the shared
-- area, and before that at most one paint.
pub record IsAnswered (p : Platform) (d : Draw) (s t : Session) : Type 0 where
  pub code : ℤ
  pub message : Bytes
  pub releases : List Action
  pub calls : List Action
  pub log_is :
      t.log ≡ sent (ack_packet p.compatible d code message) ∷ (releases ++ (calls ++ s.log))
  pub table_is : t.table ≡ s.table
  pub releases_is :
      ((bytes_eq d.coding (codes "mmap") ≡ true) × ((n : ℕ) × (releases ≡ released n ∷ [])))
      ⊎ ((releases ≡ []) × ((bytes_eq d.coding (codes "mmap") ≡ false) ⊎ (calls ≡ [])))
  pub verdict : Verdict p d s code calls

abbrev releases_of : Option ℕ → List Action
releases_of none = []
releases_of (some n) = released n ∷ []

abbrev pending_release : Option ℕ → Option Release
pending_release none = none
pending_release (some n) = some (record { end = n; released = false })

abbrev HasArea : Option ℕ → Option MmapArea → Type 0
HasArea none m = Unit
HasArea (some n) m = (a : MmapArea) × (m ≡ some a)

answer_lem :
    (p : Platform) (d : Draw) (n : Option ℕ) (code : ℤ) (message : Bytes) (s : Session)
    → HasArea n s.mmap
    → ((answer p d (pending_release n) code message s).log
        ≡ sent (ack_packet p.compatible d code message) ∷ (releases_of n ++ s.log))
      × ((answer p d (pending_release n) code message s).table ≡ s.table)
unfolding answer release_pixels release_area release
answer_lem p d none code message s h = (refl, refl)
answer_lem p d (some n) code message s (a, e) = rw (e, answer) (refl, refl)

-- What is released, and when nothing is.
abbrev Releases : Draw → Option ℕ → Type 0
Releases d none = bytes_eq d.coding (codes "mmap") ≡ false
Releases d (some n) = bytes_eq d.coding (codes "mmap") ≡ true

answered :
    (p : Platform) (d : Draw) (n : Option ℕ) (s t : Session) (code : ℤ) (message : Bytes)
    (calls : List Action)
    → Releases d n
    → t.log ≡ sent (ack_packet p.compatible d code message) ∷ (releases_of n ++ (calls ++ s.log))
    → t.table ≡ s.table
    → Verdict p d s code calls
    → IsAnswered p d s t
answered p d none s t code message calls m l same v = record {
  code = code;
  message = message;
  releases = [];
  calls = calls;
  log_is = l;
  table_is = same;
  releases_is = inr (refl, inl m);
  verdict = v;
}
answered p d (some n) s t code message calls m l same v = record {
  code = code;
  message = message;
  releases = released n ∷ [];
  calls = calls;
  log_is = l;
  table_is = same;
  releases_is = inl (m, (n, refl));
  verdict = v;
}

-- Before anything was read, an answer with an error.
refused_early :
    (p : Platform) (d : Draw) (message : Bytes) (s : Session)
    → IsAnswered p d s (answer p d none decode_error message s)
refused_early p d message s =
    let (l, same) = answer_lem p d none decode_error message s tt in
    record {
      code = decode_error;
      message = message;
      releases = [];
      calls = [];
      log_is = l;
      table_is = same;
      releases_is = inr (refl, inr refl);
      verdict = inr (inl (refl, inl refl));
    }

paint_time-positive : (p : Platform) (elapsed : ℤ) → pos 1 ≤ℤ paint_time p elapsed
unfolding paint_time
paint_time-positive p elapsed = ground arith

module _ (p : Platform) (d : Draw) (n : Option ℕ) (s : Session) (h : HasArea n s.mmap)
    (m : Releases d n) where
  paint-IsAnswered :
      (w : ℕ) (pixels : Bytes) (rowstride : ℤ) (format : Bytes)
      → lookup s.table.windows d.wid ≡ some w
      → IsAnswered p d s (paint p d (pending_release n) w pixels rowstride format s)
  unfolding paint
  paint-IsAnswered w pixels rowstride format found =
      let call = painted w d.x d.y d.width d.height pixels rowstride format in
      let t : Session = act call s in
      elim (Bool-cases (p.fails (call ∷ s.log))) [
        | inl e ↦
            let message = p.error_text t.log in
            let (l, same) = answer_lem p d n decode_error message t h in
            rw (e, paint)
              (answered p d n s (answer p d (pending_release n) decode_error message t) decode_error
                message (call ∷ []) m l same
                (inr (inl (refl, inr (w, found, (pixels, rowstride, format, refl, e))))))
        | inr e ↦
            let time = paint_time p (p.elapsed t.log) in
            let (l, same) = answer_lem p d n time [] t h in
            rw (e, paint)
              (answered p d n s (answer p d (pending_release n) time [] t) time [] (call ∷ []) m l
                same
                (inr (
                  inr (
                    paint_time-positive p (p.elapsed t.log),
                    (w, found, (pixels, rowstride, format, refl, e)),
                  ))))
      ]

  draw_pixels-IsAnswered :
      (w : ℕ) (pixels : Option Bytes)
      → lookup s.table.windows d.wid ≡ some w
      → IsAnswered p d s (draw_pixels p d (pending_release n) w pixels s)
  unfolding draw_pixels
  draw_pixels-IsAnswered w none found =
      let message = codes "no pixel data" in
      let (l, same) = answer_lem p d n decode_error message s h in
      answered p d n s (answer p d (pending_release n) decode_error message s) decode_error message
        [] m l same (inr (inl (refl, inl refl)))
  draw_pixels-IsAnswered w (some pixels) found = elim (Result-cases (layout p d pixels)) [
    | inl (message, e) ↦
        let (l, same) = answer_lem p d n decode_error message s h in
        rw (e, draw_pixels)
          (answered p d n s (answer p d (pending_release n) decode_error message s) decode_error
            message [] m l same (inr (inl (refl, inl refl))))
    | inr ((decoded, rowstride, format), e) ↦
        rw (e, draw_pixels) (paint-IsAnswered w decoded rowstride format found)
  ]

  draw_window-IsAnswered :
      (pixels : Option Bytes) → IsAnswered p d s (draw_window p d (pending_release n) pixels s)
  unfolding draw_window
  draw_window-IsAnswered pixels = elim (Option-cases (lookup s.table.windows d.wid)) [
    | inl e ↦
        let message = codes "window not found" in
        let (l, same) = answer_lem p d n decode_not_found message s h in
        rw (e, draw_window)
          (answered p d n s (answer p d (pending_release n) decode_not_found message s)
            decode_not_found message [] m l same (inl (refl, e, refl)))
    | inr (w, e) ↦ rw (e, draw_window) (draw_pixels-IsAnswered w pixels e)
  ]

draw_mmap-IsAnswered :
    (p : Platform) (d : Draw) (area : Option MmapArea) (s : Session)
    → s.mmap ≡ area
    → bytes_eq d.coding (codes "mmap") ≡ true
    → IsAnswered p d s (draw_mmap p d area s)
unfolding draw_mmap
draw_mmap-IsAnswered p d none s e m =
    refused_early p d (codes "mmap screen updates were not negotiated") s
draw_mmap-IsAnswered p d (some a) s e m =
    let raw = options_chunks (or_nil (find d.options (codes "chunks"))) d.chunks in
    elim (Result-cases (read_chunks a raw)) [
      | inl (x, q) ↦ rw (q, draw_mmap) (refused_early p d (p.describe_chunks x) s)
      | inr ((pixels, r), q) ↦
          rw (q, draw_mmap)
            (let (_, (cs, _, _, _, _, _, _, shape)) = read_chunks_lem a raw pixels r q in
              subst (λ r. IsAnswered p d s (draw_window p d (some r) (some pixels) s)) (sym shape)
                (draw_window-IsAnswered p d (some (end_of cs)) s (a, e) m (some pixels)))
    ]

-- Every draw packet is acknowledged exactly once, as the last thing that is done for it, after at
-- most one paint, and after the release of what was read from the shared area, if it was. The code
-- is at least 1 just where a paint on the window succeeded, -2 where the window is not known, and -1
-- otherwise. The window tables stay as they are.
pub handle_draw-IsAnswered :
    (p : Platform) (packet : Packet) (s : Session)
    → IsAnswered p (draw_of packet) s (handle_draw p packet s)
unfolding handle_draw
handle_draw-IsAnswered p packet s =
    let d = draw_of packet in
    elim (Bool-cases (bytes_eq d.coding (codes "mmap"))) [
      | inl e ↦ rw (e, handle_draw) (draw_mmap-IsAnswered p d s.mmap s refl e)
      | inr e ↦ rw (e, handle_draw) (draw_window-IsAnswered p d none s tt e d.pixels)
    ]
