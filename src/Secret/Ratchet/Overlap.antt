-- ===== src/Secret/Ratchet/Overlap.antt =====
-- web/static/app.js starts the handling of a frame and does not wait for its end, so that two may
-- overlap.
use rivendell.Base.{ℕ, ◌≡◌, none, some, List, [], ◌∷◌, ◌++◌, append_assoc}
use rivendell.Secret.Bytes.{Bytes}
use rivendell.Secret.Crypto.{Crypto, IsSound}
use rivendell.Secret.Session.{Session, SecretMessage, Client, put_session, get_session}
use rivendell.Secret.Ratchet.{Wire, send_secret_message, receive_start, receive_end, after_receive}
use rivendell.Secret.Ratchet.Stream.{
  Reads, wires_of, send_one, receive_started, decrypted, update_good, put_get, receiving, next_of,
}
use rivendell.Base.{append_assoc}

-- The first frame arrives twice, and both are being handled before either ends.
unfoldable pub handled_twice : Crypto → ℕ → ℕ → List Wire → Client → Client
unfolding receive_start receive_end
handled_twice c ch from [] cl = cl
handled_twice c ch from (w ∷ ws) cl = elim (receive_start ch from w cl) [
  | none ↦ cl
  | some p ↦ (receive_end c p (receive_end c p cl).client).client
]

module _ (c : Crypto) (v : IsSound c) (ch : ℕ) where
  ended :
      (me : ℕ) (iv text : Bytes) (s r q : Session) (rc : Client)
      → Reads me s r
      → get_session ch rc ≡ some q
      → let p = receiving c v ch me iv text s r in
        (receive_end c p rc).client ≡ put_session ch (after_receive p text (next_of c v ch s) q) rc
  unfolding receive_end
  ended me iv text s r q rc h g = rw (
    receive_end,
    decrypted c v ch me iv text s r h,
    update_good c v ch (after_receive (receiving c v ch me iv text s r) text (next_of c v ch s)) rc
        q g,
  )

  -- If a client's session reads what the other's sends, then the frame of a text that arrives a
  -- second time before the first handling of it has ended is read twice: the replay check sees the
  -- same counter both times.
  pub handled_twice-send_secret_message :
      (iv text : Bytes) (cl rc : Client) (s r : Session)
      → get_session ch cl ≡ some s
      → get_session ch rc ≡ some r
      → Reads cl.my_user_id s r
      → let sent = (send_secret_message c iv ch text cl).sent in
        let m : SecretMessage = record {
          from_user_id = cl.my_user_id;
          number = s.send_counter;
          text = text;
        } in
        (r' : Session) × (get_session ch (handled_twice c ch cl.my_user_id (wires_of sent) rc)
          ≡ some r')
        × (r'.messages ≡ r.messages ++ (m ∷ m ∷ []))
  unfolding handled_twice
  handled_twice-send_secret_message iv text cl rc s r g k h =
      let me = cl.my_user_id in
      let m : SecretMessage = record { from_user_id = me; number = s.send_counter; text = text } in
      let p = receiving c v ch me iv text s r in
      let r1 = after_receive p text (next_of c v ch s) r in
      let r2 = after_receive p text (next_of c v ch s) r1 in
      (
        r2,
        rw
            (
              send_one c v ch iv text cl s g h.0 h.4,
              handled_twice,
              receive_started c v ch me iv text s r rc h k,
              ended me iv text s r r rc h k,
              ended me iv text s r r1 (put_session ch r1 rc) h (put_get c v ch r1 rc),
            )
            (put_get c v ch r2 (put_session ch r1 rc)),
        append_assoc r.messages (m ∷ []) (m ∷ []),
      )
