-- ===== src/Keyboard/Commands/Retry.antt =====
-- A byte is sent again while the keyboard asks for it, three times at most.
use ssos.Base.{ℕ, zero, suc, ◌<◌, ◌≡◌, ◌≢◌, refl, arith, ap, Bool-cases, ◌↔◌, ◌⊎◌}
use ssos.Base.{inl, inr, Option, none, some, ℤ, pos, negsuc, ◌==◌, ==_iff, if◌then◌else◌}
use ssos.Ports.{Ports}
use ssos.Keyboard.Commands.{attempt, send, sent, keyboard_enable_scanning, acknowledged, is_ok}
use ssos.Keyboard.Commands.{keyboard_set_default_scancode_set, kbd_resp_resend, kbd_resp_ack}
use ssos.Keyboard.Commands.{enable_scanning, set_scancode_set, default_scancode_set}

module _ {D : Type 0} (io : Ports D) where
  -- The device after `n` attempts, and its reply to the next.
  abbrev pub after : ℕ → ℕ → D → D
  after value zero d = d
  after value (suc n) d = after value n (attempt io value d).1

  abbrev pub reply : ℕ → ℕ → D → ℕ
  reply value n d = (attempt io value (after value n d)).0

  -- What became of a byte with so many attempts: after `n` requests to send it again the reply
  -- `r` ended the loop; or all attempts were answered by such a request.
  pub data Sent (left value : ℕ) (d : D) (r : Option ℕ × D) : Type 0 where
    answered :
        (n : ℕ)
        → n < left
        → ((j : ℕ) → j < n → reply value j d ≡ kbd_resp_resend)
        → reply value n d ≢ kbd_resp_resend
        → r ≡ (some (reply value n d), after value (suc n) d)
        → Sent left value d r
    exhausted :
        ((j : ℕ) → j < left → reply value j d ≡ kbd_resp_resend)
        → r ≡ (none, after value left d)
        → Sent left value d r

  resent :
      (left value : ℕ) (d : D) (r : Option ℕ × D)
      → (attempt io value d).0 ≡ kbd_resp_resend
      → Sent left value (attempt io value d).1 r
      → Sent (suc left) value d r
  resent left value d r e (answered n lt before last at) =
      answered (suc n) (omega arith) (λ j h. earlier j h) last at
    where
      earlier : (j : ℕ) → j < suc n → reply value j d ≡ kbd_resp_resend
      earlier zero h = e
      earlier (suc j) h = before j (omega arith)
  resent left value d r e (exhausted before at) = exhausted (λ j h. earlier j h) at
    where
      earlier : (j : ℕ) → j < suc left → reply value j d ≡ kbd_resp_resend
      earlier zero h = e
      earlier (suc j) h = before j (omega arith)

  pub send-Sent : (left value : ℕ) (d : D) → Sent left value d (send io left value d)
  unfolding send
  send-Sent zero value d = exhausted (λ j h. absurd (omega arith)) refl
  send-Sent (suc left) value d = elim (Bool-cases ((attempt io value d).0 == kbd_resp_resend)) [
    | inl e ↦ rw e (
        resent left value d (send io left value (attempt io value d).1) ((==_iff _ _).0 e)
          (send-Sent left value (attempt io value d).1))
    | inr e ↦ rw e (answered 0 (omega arith) (λ j h. absurd (omega arith)) (λ h. ground arith) refl)
  ]

module _ {D : Type 0} (d1 d2 : D) where
  -- The result of setting the scancode set, given both replies.
  abbrev chosen : Option ℕ → Option ℕ → ℤ × D
  chosen r1 r2 =
      if is_ok (acknowledged (negsuc 0) (negsuc 1) r1)
      then (acknowledged (negsuc 2) (negsuc 3) r2, d2)
      else (acknowledged (negsuc 0) (negsuc 1) r1, d1)

  by_replies :
      (r1 r2 : Option ℕ)
      → ((chosen r1 r2).0 ≡ pos 0) ↔ ((r1 ≡ some kbd_resp_ack) × (r2 ≡ some kbd_resp_ack))
  unfolding acknowledged is_ok
  by_replies r1 r2 = ground arith

module _ {D : Type 0} (io : Ports D) (d : D) where
  -- For every device: enabling the scanning succeeds with the first reply among the first three that
  -- is no request to send the byte again, whatever it is, after just so many attempts; and it fails
  -- with -1 after three attempts that were all answered by such requests.
  pub keyboard_enable_scanning-cases :
      ((n : ℕ) × (n < 3)
        × ((j : ℕ) → j < n → reply io enable_scanning j d ≡ kbd_resp_resend)
        × (reply io enable_scanning n d ≢ kbd_resp_resend)
        × (keyboard_enable_scanning io d ≡ (pos 0, after io enable_scanning (suc n) d)))
      ⊎ (((j : ℕ) → j < 3 → reply io enable_scanning j d ≡ kbd_resp_resend)
          × (keyboard_enable_scanning io d ≡ (negsuc 0, after io enable_scanning 3 d)))
  unfolding keyboard_enable_scanning sent
  keyboard_enable_scanning-cases = elim (send-Sent io 3 enable_scanning d) [
    | answered n lt before last at ↦ inl (n, lt, before, last, ap (λ r. (sent r.0, r.1)) at)
    | exhausted before at ↦ inr (before, ap (λ r. (sent r.0, r.1)) at)
  ]

  -- Setting the scancode set returns 0 just when both its bytes, the second sent to the device as the
  -- first has left it, were acknowledged.
  keyboard_set_default_scancode_set-ok : ((keyboard_set_default_scancode_set io d).0 ≡ pos 0) ↔ (
      ((send io 3 set_scancode_set d).0 ≡ some kbd_resp_ack)
      × ((send io 3 default_scancode_set (send io 3 set_scancode_set d).1).0 ≡ some kbd_resp_ack))
  unfolding keyboard_set_default_scancode_set acknowledged is_ok
  keyboard_set_default_scancode_set-ok =
      by_replies (send io 3 set_scancode_set d).1
        (send io 3 default_scancode_set (send io 3 set_scancode_set d).1).1
        (send io 3 set_scancode_set d).0
        (send io 3 default_scancode_set (send io 3 set_scancode_set d).1).0
