-- ===== src/AsyncPcap/Polls.antt =====
-- The poll loops of src/async_pcap.rs.
use mpconn.Base.{◌≡◌, refl, bind_assoc, List, [], ◌∷◌, Outcome, done, ◌>>=◌}
use mpconn.AsyncPcap.{
  Readiness, not_ready, ready_error, is_ready, Capture, captured, capture_error, Poll, pending,
  ready_ok, ready_err, ReadBuf, put_slice, poll_read,
}
use mpconn.Messages.{Bytes}

-- What the rounds of a poll come to: the first packet, if only failed captures go before it, or how
-- the poll ends without one.
abbrev pub first_captured : List (Readiness × Capture) → Poll Bytes
first_captured [] = pending
first_captured ((not_ready, answer) ∷ rest) = pending
first_captured ((ready_error, answer) ∷ rest) = ready_err
first_captured ((is_ready, captured bytes) ∷ rest) = ready_ok bytes
first_captured ((is_ready, capture_error) ∷ rest) = first_captured rest

-- A buffer filled with what a poll gave.
abbrev pub fill : Poll Bytes → ReadBuf → Outcome (Poll (Unit {0}) × ReadBuf)
fill pending buf = done (pending, buf)
fill (ready_ok bytes) buf = put_slice bytes buf >>= λ buf'. done (ready_ok tt, buf')
fill ready_err buf = done (ready_err, buf)

-- `poll_read` puts the first packet that libpcap captures into the buffer, whatever errors come
-- before, and nothing else; it gives an error only if the readiness fails, and panics only if the
-- packet is longer than the rest of the buffer.
pub poll_read-fill :
    (rounds : List (Readiness × Capture)) (buf : ReadBuf)
    → poll_read rounds buf ≡ fill (first_captured rounds) buf
unfolding poll_read
poll_read-fill [] buf = refl
poll_read-fill ((not_ready, answer) ∷ rest) buf = refl
poll_read-fill ((ready_error, answer) ∷ rest) buf = refl
poll_read-fill ((is_ready, captured bytes) ∷ rest) buf = bind_assoc (put_slice bytes buf) _ _
poll_read-fill ((is_ready, capture_error) ∷ rest) buf = poll_read-fill rest buf
