-- ===== src/Client/Mmap/Area/Updates.antt =====
-- client/mmap.go: `readChunks` and the release of what it read.
use go_xpra.Prelude.{
  ℕ, ◌%◌, ◌^◌, ◌≤◌, ◌≡◌, inl, inr, refl, ap, sym, ◌∙◌, Bool, true, false, not, List, [], ◌∷◌, ◌++◌,
  append-nil, length, drop, All, arith, Bool-cases, length-append, length-take, length-drop,
  drop-append,
}
use go_xpra.Prelude.Bytes.{Bytes}
use go_xpra.Prelude.Result.{ok, ◌>>=◌, >>=-eq-ok, if-ok}
use go_xpra.Rencode.Value.{Value}
use go_xpra.Client.Mmap.Chunks.{MmapChunk, not_negotiated, parse_mmap_chunks}
use go_xpra.Client.Mmap.Chunks.Bounds.{total_length, InArea, parse_mmap_chunks_bounds}
use go_xpra.Client.Mmap.Area.{
  MmapArea, chunk_bytes, joined, pixels_of, end_of, Release, read_chunks, release,
}

length-chunk_bytes :
    (contents : Bytes) (c : MmapChunk)
    → InArea (length contents) c
    → length (chunk_bytes contents c) ≡ c.length
unfolding chunk_bytes
length-chunk_bytes contents c h =
    omega (arith, length-take c.length (drop c.offset contents), length-drop c.offset contents)

length-joined :
    (contents : Bytes) (cs : List MmapChunk)
    → All (InArea (length contents)) cs
    → length (joined contents cs) ≡ total_length cs
unfolding joined
length-joined contents [] h = refl
length-joined contents (c ∷ cs) h = omega (
  arith,
  length-append (chunk_bytes contents c) (joined contents cs),
  length-chunk_bytes contents c h.0,
  length-joined contents cs h.1,
)

pixels_of-joined :
    (contents : Bytes) (cs : List MmapChunk) → pixels_of contents cs ≡ joined contents cs
unfolding pixels_of joined
pixels_of-joined contents [] = refl
pixels_of-joined contents (c ∷ []) = sym (append-nil (chunk_bytes contents c))
pixels_of-joined contents (c ∷ d ∷ cs) = refl

switched_on : (b : Bool) → not b ≡ false → b ≡ true
switched_on true h = refl
switched_on false h = cc

-- A screen update is read only from an enabled area: it is what the one or two chunks hold, one
-- behind the other, all of them in the area behind its header, and of exactly their sizes.
pub read_chunks_lem :
    (a : MmapArea) (raw : Value) (pixels : Bytes) (r : Release)
    → read_chunks a raw ≡ ok (pixels, r)
    → (a.enabled ≡ true)
      × ((cs : List MmapChunk) × (parse_mmap_chunks raw (length a.contents) ≡ ok cs)
          × (1 ≤ length cs)
          × (length cs ≤ 2)
          × All (InArea (length a.contents)) cs
          × (pixels ≡ joined a.contents cs)
          × (length pixels ≡ total_length cs)
          × (r ≡ (record { end = end_of cs; released = false })))
unfolding read_chunks
read_chunks_lem a raw pixels r e =
    let (on, e') =
      if-ok (not a.enabled) not_negotiated
        (parse_mmap_chunks raw (length a.contents) >>= λ cs.
          ok (pixels_of a.contents cs, record { end = end_of cs; released = false }))
        e in
    let (cs, p, q) =
      >>=-eq-ok (parse_mmap_chunks raw (length a.contents))
        (λ cs. ok (pixels_of a.contents cs, record { end = end_of cs; released = false })) e' in
    let (inside, one, two, filled, small) = parse_mmap_chunks_bounds raw (length a.contents) cs p in
    let got : Bytes × Release =
      (pixels_of a.contents cs, record { end = end_of cs; released = false }) in
    let q' : got ≡ (pixels, r) = cc in
    let whole : pixels ≡ joined a.contents cs =
      sym (ap (λ t. t.0) q') ∙ pixels_of-joined a.contents cs in
    (
      switched_on a.enabled on,
      (
        cs,
        p,
        one,
        two,
        inside,
        whole,
        ap length whole ∙ length-joined a.contents cs inside,
        sym (ap (λ t. t.1) q'),
      ),
    )

module _ (put : ℕ → Bytes) (four : (n : ℕ) → length (put n) ≡ 4) where
  release_again :
      (r : Release) (contents : Bytes) → r.released ≡ true → release put r contents ≡ (r, contents)
  unfolding release
  release_again r contents e = rw e refl

  release_first :
      (r : Release) (contents : Bytes)
      → r.released ≡ false
      → release put r contents
        ≡ (record r { released = true }, put (r.end % 2 ^ 32) ++ drop 4 contents)
  unfolding release
  release_first r contents e = rw e refl

  drop-put : (n : ℕ) (rest : Bytes) → drop 4 (put n ++ rest) ≡ rest
  drop-put n rest = ap (λ k. drop k (put n ++ rest)) (sym (four n)) ∙ drop-append (put n) rest

  -- Where a machine word has four bytes and the area at least as many, a release changes nothing but
  -- the header's first word, marks itself as done, and does nothing the second time.
  pub release_lem :
      (r : Release) (contents : Bytes)
      → 4 ≤ length contents
      → (length (release put r contents).1 ≡ length contents)
        × (drop 4 (release put r contents).1 ≡ drop 4 contents)
        × ((release put r contents).0.released ≡ true)
        × (release put (release put r contents).0 (release put r contents).1
            ≡ release put r contents)
  release_lem r contents h = elim (Bool-cases r.released) [
    | inl e ↦ rw (release_again r contents e) (refl, refl, e, release_again r contents e)
    | inr e ↦
        let n = r.end % 2 ^ 32 in
        let later = put n ++ drop 4 contents in
        rw (release_first r contents e) (
          omega (arith, length-append (put n) (drop 4 contents), four n, length-drop 4 contents),
          drop-put n (drop 4 contents),
          refl,
          release_again (record r { released = true }) later refl,
        )
  ]
