-- ===== src/Client/Run/Challenge.antt =====
-- client/client.go: the challenges of a whole session.
use go_xpra.Prelude.{◌≡◌, true, false}
use go_xpra.Protocol.Packet.{Packet}
use go_xpra.Client.State.{Platform, Session}
use go_xpra.Client.Hello.{Host}
use go_xpra.Client.Control.{handle_challenge}
use go_xpra.Client.Control.Authentication.{Answers, handle_challenge-Answers, seen_again}
use go_xpra.Client.Run.{Steps, no_steps, one_more}
use go_xpra.Client.Run.Seen.{Step-seen}
use go_xpra.Client.Run.Seen.Start.{handle_challenge-seen}

module _ (p : Platform) (h : Host) where
  Steps-seen : (s t : Session) → Steps p h s t → s.challenge_seen ≡ true → t.challenge_seen ≡ true
  Steps-seen s t no_steps k = k
  Steps-seen s u (one_more t u' steps step) k = Step-seen p h t u step (Steps-seen s t steps k)

  -- The first challenge is answered with one hello, or ends the session without a word. The hello
  -- answers only a challenge with a salt that names the one digest, for the password and for the
  -- salt, and proves the password with a client's salt that was drawn for it. Whatever the server,
  -- the desktop and the timers do from then on, in any order, any later challenge ends the session
  -- without a word.
  pub handle_challenge-Steps :
      (first later : Packet) (s t : Session)
      → s.challenge_seen ≡ false
      → Steps p h (handle_challenge p h first s) t
      → Answers p h first s (handle_challenge p h first s)
        × ((handle_challenge p h later t).log ≡ t.log)
        × ((handle_challenge p h later t).quit ≡ true)
  handle_challenge-Steps first later s t e steps =
      let (log, quit) =
        seen_again p h later t
          (Steps-seen (handle_challenge p h first s) t steps (handle_challenge-seen p h first s)) in
      (handle_challenge-Answers p h first s e, log, quit)
