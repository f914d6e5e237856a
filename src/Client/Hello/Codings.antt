-- ===== src/Client/Hello/Codings.antt =====
-- client/hello.go and client/client.go: the codings that the hello offers, and those that are drawn.
use go_xpra.Prelude.{
  ◌≡◌, ◌⊎◌, inl, inr, refl, subst, true, false, List, [], ◌∷◌, some, All, Bool-cases,
}
use go_xpra.Prelude.Bytes.{Bytes, codes, bytes_eq, bytes_eq→eq}
use go_xpra.Client.Clipboard.Text.{contains_string}
use go_xpra.Client.State.{Platform}
use go_xpra.Client.Image.{Format, format_of, jpeg, png, webp}
use go_xpra.Client.Draw.{Draw, is_rgb, is_image, layout, rgb_layout, image_layout}
use go_xpra.Client.Hello.{advertised_codings}

-- The switch of handleDraw has a case for the coding, and so has that of decodeImage for an image.
abbrev pub IsHandled : Bytes → Type 0
IsHandled coding =
    (bytes_eq coding (codes "mmap") ≡ false)
    × ((is_rgb coding ≡ true)
        ⊎ ((is_rgb coding ≡ false)
            × (is_image coding ≡ true)
            × ((f : Format) × (format_of coding ≡ some f))))

offered : All IsHandled advertised_codings
unfolding is_rgb is_image format_of bytes_eq
offered = (
  (refl, inl refl),
  (
    (refl, inl refl),
    (
      (refl, inr (refl, refl, (jpeg, refl))),
      (
        (refl, inr (refl, refl, (png, refl))),
        (
          (refl, inr (refl, refl, (png, refl))),
          ((refl, inr (refl, refl, (png, refl))), ((refl, inr (refl, refl, (webp, refl))), tt)),
        ),
      ),
    ),
  ),
)

All-contains_string :
    (P : Bytes → Type 0) (values : List Bytes) (want : Bytes)
    → All P values
    → contains_string values want ≡ true
    → P want
unfolding contains_string
All-contains_string P [] want ps e = cc
All-contains_string P (v ∷ vs) want ps e = elim (Bool-cases (bytes_eq v want)) [
  | inl q ↦ subst P (bytes_eq→eq v want q) ps.0
  | inr q ↦ All-contains_string P vs want ps.1 (rw q at e)
]

handled_layout :
    (p : Platform) (d : Draw) (pixels : Bytes)
    → IsHandled d.coding
    → (layout p d pixels ≡ rgb_layout d pixels) ⊎ (layout p d pixels ≡ image_layout p d pixels)
unfolding layout
handled_layout p d pixels (m, inl r) = inl (rw (m, r, layout) refl)
handled_layout p d pixels (m, inr (r, i, known)) = inr (rw (m, r, i, layout) refl)

-- A draw in any coding that the hello offers is read as raw pixels or as an image: the answer that
-- the encoding is not supported is left for codings that were not offered.
pub layout-advertised_codings :
    (p : Platform) (d : Draw) (pixels : Bytes)
    → contains_string advertised_codings d.coding ≡ true
    → (layout p d pixels ≡ rgb_layout d pixels) ⊎ (layout p d pixels ≡ image_layout p d pixels)
layout-advertised_codings p d pixels e =
    handled_layout p d pixels (All-contains_string IsHandled advertised_codings d.coding offered e)
