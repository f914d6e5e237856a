-- ===== src/Client/Control/Authentication.antt =====
-- client/client.go, client/hello.go: challenges and the answers to them.
use go_xpra.Prelude.{
  ℕ, ◌≡◌, ◌⊎◌, refl, sym, ap, ◌∙◌, inl, inr, Bool, true, false, ◌||◌, not, List, [], ◌∷◌, Option,
  none, some, if◌then◌else◌, length, leb, ◌≤◌, arith, Bool-cases,
}
use go_xpra.Prelude.Int.{pos}
use go_xpra.Prelude.Bytes.{Bytes, codes, bytes_eq, bytes_eq→eq}
use go_xpra.Prelude.Result.{Result, ok, err, >>=-eq-ok, if-ok}
use go_xpra.Protocol.Packet.{Packet, bytes, str}
use go_xpra.Client.State.{Action, sent, SessionError, other_digests, Platform, Session}
use go_xpra.Client.Hello.{
  Host, digest_name, challenge_salt_len, cut, hmac_hex, reply_with, reply_to, challenge_reply,
}
use go_xpra.Client.Hello.Display.{send_hello, greeted, hello_packet}
use go_xpra.Client.Control.{
  challenge_password, challenge_answer, reply_hello, answer_challenge, handle_challenge,
}

-- What a server that knows the password computes from its salt and the client's.
abbrev pub Proves : Host → Bytes → Bytes → Bytes → Bytes → Type 0
Proves h password server_salt client_salt response =
    response ≡ hmac_hex h password (hmac_hex h client_salt server_salt)

first_off : (a b : Bool) → (not a || not b) ≡ false → a ≡ true
first_off true b e = refl
first_off false b e = cc

second_off : (a b : Bool) → (not a || not b) ≡ false → b ≡ true
second_off true b e = ground arith
second_off false b e = cc

-- A challenge that names no digest for the salt means xor, which is not the one that is known.
salt_digest_lem :
    (packet : Packet)
    → bytes_eq (if leb 5 (length packet) then str packet (pos 4) else codes "xor") digest_name
      ≡ true
    → (5 ≤ length packet) × (str packet (pos 4) ≡ digest_name)
unfolding bytes_eq
salt_digest_lem packet e = elim (Bool-cases (leb 5 (length packet))) [
  | inl long ↦
      let named : bytes_eq (str packet (pos 4)) digest_name ≡ true = rw long at e in
      (ground arith, bytes_eq→eq (str packet (pos 4)) digest_name named)
  | inr short ↦ let clash : bytes_eq (codes "xor") digest_name ≡ true = rw short at e in absurd cc
]

reply_with_lem :
    (h : Host) (drawn : Option Bytes) (server_salt password response salt : Bytes)
    → reply_with h drawn server_salt password ≡ ok (response, salt)
    → (drawn ≡ some salt) × Proves h password server_salt salt response
unfolding reply_with
reply_with_lem h none server_salt password response salt e = cc
reply_with_lem h (some drawn) server_salt password response salt e =
    let got : Bytes × Bytes = (hmac_hex h password (hmac_hex h drawn server_salt), drawn) in
    let same : got ≡ (response, salt) = cc in
    let q : drawn ≡ salt = ap (λ t. t.1) same in
    (
      ap some q,
      sym (ap (λ t. t.0) same) ∙ ap (λ c. hmac_hex h password (hmac_hex h c server_salt)) q,
    )

challenge_reply_lem :
    (h : Host) (packet : Packet) (log : List Action) (password response salt : Bytes)
    → challenge_reply h packet log password ≡ ok (response, salt)
    → (c : ℕ) × (rest : Bytes) × (bytes packet (pos 1) ≡ some (c ∷ rest))
      × (cut (str packet (pos 3)) ≡ digest_name)
      × (5 ≤ length packet)
      × (str packet (pos 4) ≡ digest_name)
      × (h.random (codes "client-salt") log challenge_salt_len ≡ some salt)
      × Proves h password (c ∷ rest) salt response
unfolding challenge_reply reply_to
challenge_reply_lem h packet log password response salt e = by_salt (bytes packet (pos 1)) refl e
  where
    by_salt :
        (o : Option Bytes)
        → bytes packet (pos 1) ≡ o
        → (elim o [
          | none ↦ err SessionError.no_server_salt
          | some [] ↦ err SessionError.no_server_salt
          | some (c ∷ salt) ↦ reply_to h packet log password (c ∷ salt)
        ])
          ≡ ok (response, salt)
        → (c : ℕ) × (rest : Bytes) × (bytes packet (pos 1) ≡ some (c ∷ rest))
          × (cut (str packet (pos 3)) ≡ digest_name)
          × (5 ≤ length packet)
          × (str packet (pos 4) ≡ digest_name)
          × (h.random (codes "client-salt") log challenge_salt_len ≡ some salt)
          × Proves h password (c ∷ rest) salt response
    by_salt none q e = cc
    by_salt (some []) q e = cc
    by_salt (some (c ∷ rest)) q e =
        let digest = cut (str packet (pos 3)) in
        let salt_digest = if leb 5 (length packet) then str packet (pos 4) else codes "xor" in
        let drawn = h.random (codes "client-salt") log challenge_salt_len in
        let (g, e1) =
          if-ok (not (bytes_eq digest digest_name) || not (bytes_eq salt_digest digest_name))
            (other_digests digest salt_digest) (reply_with h drawn (c ∷ rest) password) e in
        let (long, named) =
          salt_digest_lem packet
            (second_off (bytes_eq digest digest_name) (bytes_eq salt_digest digest_name) g) in
        let (found, proof) = reply_with_lem h drawn (c ∷ rest) password response salt e1 in
        (
          c,
          rest,
          q,
          bytes_eq→eq digest digest_name
              (first_off (bytes_eq digest digest_name) (bytes_eq salt_digest digest_name) g),
          long,
          named,
          found,
          proof,
        )

-- One hello with an answer to the challenge, or none and the end of the session. An answer is to a
-- salt, and to the one digest, for the password and for the salt.
abbrev pub Answers : Platform → Host → Packet → Session → Session → Type 0
Answers p h packet s t =
    ((t.log ≡ s.log) × (t.quit ≡ true))
    ⊎ ((password response salt : Bytes) × (shown : Session) × (t.log
          ≡ sent (hello_packet p h response salt shown) ∷ s.log)
        × (challenge_password h s.password (str packet (pos 5)) ≡ ok password)
        × ((c : ℕ) × (rest : Bytes) × (bytes packet (pos 1) ≡ some (c ∷ rest))
            × (cut (str packet (pos 3)) ≡ digest_name)
            × (5 ≤ length packet)
            × (str packet (pos 4) ≡ digest_name)
            × (h.random (codes "client-salt") s.log challenge_salt_len ≡ some salt)
            × Proves h password (c ∷ rest) salt response))

reply_hello-log :
    (p : Platform) (h : Host) (response salt : Bytes) (s : Session)
    → ((reply_hello p h (response, salt) s).log
        ≡ sent (hello_packet p h response salt (greeted p h s)) ∷ s.log)
      × ((reply_hello p h (response, salt) s).challenge_seen ≡ s.challenge_seen)
unfolding reply_hello send_hello greeted
reply_hello-log p h response salt s = (ground arith, ground arith)

answer_challenge_lem :
    (p : Platform) (h : Host) (packet : Packet) (s : Session)
    → Answers p h packet s (answer_challenge p h (challenge_answer h packet s) s)
      × ((answer_challenge p h (challenge_answer h packet s) s).challenge_seen ≡ s.challenge_seen)
unfolding challenge_answer answer_challenge
answer_challenge_lem p h packet s = by_answer (challenge_answer h packet s) refl
  where
    by_answer :
        (r : Result SessionError (Bytes × Bytes))
        → challenge_answer h packet s ≡ r
        → Answers p h packet s (answer_challenge p h r s)
          × ((answer_challenge p h r s).challenge_seen ≡ s.challenge_seen)
    by_answer (err e) q = (inl (refl, refl), refl)
    by_answer (ok (response, salt)) q =
        let (password, known, replied) =
          >>=-eq-ok (challenge_password h s.password (str packet (pos 5)))
            (λ password. challenge_reply h packet s.log password) q in
        let salted = challenge_reply_lem h packet s.log password response salt replied in
        let (logged, same) = reply_hello-log p h response salt s in
        (inr (password, response, salt, greeted p h s, logged, known, salted), same)

pub seen_again :
    (p : Platform) (h : Host) (packet : Packet) (s : Session)
    → s.challenge_seen ≡ true
    → ((handle_challenge p h packet s).log ≡ s.log) × ((handle_challenge p h packet s).quit ≡ true)
unfolding handle_challenge
seen_again p h packet s e = rw (e, handle_challenge) (refl, refl)

pub handle_challenge-Answers :
    (p : Platform) (h : Host) (packet : Packet) (s : Session)
    → s.challenge_seen ≡ false
    → Answers p h packet s (handle_challenge p h packet s)
unfolding handle_challenge
handle_challenge-Answers p h packet s e =
    rw (e, handle_challenge)
      (answer_challenge_lem p h packet (record s { challenge_seen = true })).0
