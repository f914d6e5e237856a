-- ===== src/Client/Clipboard/Kept.antt =====
-- client/clipboard.go: what holds of the clipboard fields of a session at all times.
use go_xpra.Prelude.{
  ℕ, suc, ◌≤◌, ◌≡◌, inl, inr, refl, ap, sym, subst, Bool, true, ◌||◌, ◌&&◌, List, [], ◌∷◌, Option,
  none, some, length, ltb, ltb→le, arith, Bool-cases,
}
use go_xpra.Prelude.Int.{ℤ, pos}
use go_xpra.Prelude.Bytes.{Bytes, bytes_eq}
use go_xpra.Prelude.Table.{lookup, lookup-insert_inv, int_key}
use go_xpra.Client.State.{clipboard_set, Platform, Request, Clip, Session}
use go_xpra.Client.Clipboard.Text.{max_clipboard_bytes, utf8_valid, preferred_clipboard_target}
use go_xpra.Client.Clipboard.{
  with_clip, send_clipboard_token, offer_clipboard, request_target, request_remote_clipboard,
  begin_remote_clipboard, apply_remote_clipboard, apply_or_request,
}

-- Requests that wait are of the current generation and among those that were numbered, known text is
-- valid and fits, and a ready clipboard exists and has a direction.
pub record IsKept (c : Clip) : Type 0 where
  pub current : (id : ℤ) (r : Request) → lookup c.requests id ≡ some r → r.generation ≡ c.generation
  pub numbered :
      (id : ℤ) (r : Request)
      → lookup c.requests id ≡ some r
      → (n : ℕ) × (id ≡ pos n) × (n ≤ c.next_request)
  pub valid : c.known ≡ true → (utf8_valid c.text ≡ true) × (length c.text ≤ max_clipboard_bytes)
  pub negotiated : c.ready ≡ true → (c.present ≡ true) × ((c.can_send || c.can_receive) ≡ true)

unfoldable pub Kept : Session → Type 0
Kept s = IsKept s.clip

offer_clipboard-clip : (p : Platform) (s : Session) → (offer_clipboard p s).clip ≡ s.clip
unfolding offer_clipboard send_clipboard_token
offer_clipboard-clip p s = elim (Bool-cases (s.clip.can_send && s.clip.known)) [
  | inl e ↦ elim (Bool-cases s.clip.known) [
    | inl f ↦ rw (e, f, offer_clipboard, send_clipboard_token) refl
    | inr f ↦ rw (e, f, offer_clipboard, send_clipboard_token) refl
  ]
  | inr e ↦ rw (e, offer_clipboard) refl
]

pub offer_clipboard-Kept : (p : Platform) (s : Session) → Kept s → Kept (offer_clipboard p s)
unfolding Kept
offer_clipboard-Kept p s k = subst IsKept (sym (offer_clipboard-clip p s)) k

-- No request waits.
pub no_requests :
    (c : Clip) (generation : ℕ) (ready can_send can_receive : Bool)
    → IsKept c
    → (ready ≡ true → (c.present ≡ true) × ((can_send || can_receive) ≡ true))
    → IsKept (record c {
      generation = generation;
      requests = [];
      ready = ready;
      can_send = can_send;
      can_receive = can_receive;
    })
unfolding lookup
no_requests c generation ready can_send can_receive k h = record {
  current = λ id r e. absurd cc;
  numbered = λ id r e. absurd cc;
  valid = k.valid;
  negotiated = h;
}

pub begin_remote_clipboard-Kept : (s : Session) → Kept s → Kept (begin_remote_clipboard s)
unfolding Kept begin_remote_clipboard with_clip
begin_remote_clipboard-Kept s k =
    no_requests s.clip (suc s.clip.generation) s.clip.ready s.clip.can_send s.clip.can_receive k
      k.negotiated

-- Text that was checked becomes the known text.
pub with_text-IsKept :
    (c : Clip) (text : Bytes)
    → IsKept c
    → utf8_valid text ≡ true
    → length text ≤ max_clipboard_bytes
    → IsKept (record c { text = text; known = true })
with_text-IsKept c text k v l = record {
  current = k.current;
  numbered = k.numbered;
  valid = λ e. (v, l);
  negotiated = k.negotiated;
}

pub apply_remote_clipboard-Kept :
    (p : Platform) (text : Bytes) (s : Session)
    → utf8_valid text ≡ true
    → Kept s
    → Kept (apply_remote_clipboard p text s)
unfolding Kept apply_remote_clipboard with_clip
apply_remote_clipboard-Kept p text s v k =
    elim (Bool-cases (ltb max_clipboard_bytes (length text))) [
      | inl e ↦ rw (e, apply_remote_clipboard) k
      | inr e ↦ elim (Bool-cases (s.clip.known && bytes_eq s.clip.text text)) [
        | inl f ↦ rw (e, f, apply_remote_clipboard) k
        | inr f ↦ elim (Bool-cases (p.fails (clipboard_set text ∷ s.log))) [
          | inl g ↦ rw (e, f, g, apply_remote_clipboard) k
          | inr g ↦
              rw (e, f, g, apply_remote_clipboard)
                (with_text-IsKept s.clip text k v (ltb→le max_clipboard_bytes (length text) e))
        ]
      ]
    ]

request_target-Kept : (target : Bytes) (s : Session) → Kept s → Kept (request_target target s)
unfolding Kept request_target with_clip
request_target-Kept [] s k = k
request_target-Kept (c ∷ target) s k =
    let r : Request = record { generation = s.clip.generation; target = c ∷ target } in
    let id = pos (suc s.clip.next_request) in
    record {
      current = λ j q e. elim (lookup-insert_inv id r s.clip.requests j q e) [
        | inl (_, same) ↦ ap (λ (t : Request). t.generation) (sym same)
        | inr (_, old) ↦ k.current j q old
      ];
      numbered = λ j q e. elim (lookup-insert_inv id r s.clip.requests j q e) [
        | inl (same, _) ↦ (suc s.clip.next_request, sym same, omega arith)
        | inr (_, old) ↦ let (n, p, l) = k.numbered j q old in (n, p, omega arith)
      ];
      valid = k.valid;
      negotiated = k.negotiated;
    }

pub apply_or_request-Kept :
    (p : Platform) (found : Option Bytes) (targets : List Bytes) (s : Session)
    → ((text : Bytes) → found ≡ some text → utf8_valid text ≡ true)
    → Kept s
    → Kept (apply_or_request p found targets s)
unfolding apply_or_request request_remote_clipboard
apply_or_request-Kept p none targets s v k =
    request_target-Kept (preferred_clipboard_target targets) s k
apply_or_request-Kept p (some text) targets s v k =
    apply_remote_clipboard-Kept p text s (v text refl) k
