-- ===== src/Server/Flush.antt =====
-- The loop of flushSendBuf and flushDataSendBuf (server/src/signal_server.cpp) ends.
use mathlib.Core.List.{append_assoc}
use vlan_connect.Prelude.{
  Bool-cases, length, take, drop, All, length-append, take-append-drop, length-take, length-drop, ℕ,
  zero, suc, ◌+◌, ◌-◌, ◌≤◌, ◌<◌, min, ◌≡◌, refl, sym, ap, ◌∙◌, subst, ◌⊎◌, inl, inr, Bool, true,
  false, List, [], ◌∷◌, ◌++◌, arith,
}
use vlan_connect.Room.Leases.{is_empty}
use vlan_connect.Server.State.{ClientSession, SendResult, sent, would_block, failed}
use vlan_connect.Server.Send.{
  Wire, buffer, with_buffer, consume_send_buffer, next_answer, other_answers, Round, again, blocked,
  broken, round_of, taken, flush_loop,
}

-- An answer of `send` that took bytes, one that asks to wait, and one that gives the session up.
abbrev pub TakesBytes : SendResult → Type 0
TakesBytes answer = (n : ℕ) × (answer ≡ sent (suc n))

abbrev pub GivesUp : SendResult → Type 0
GivesUp answer = (answer ≡ failed) ⊎ (answer ≡ sent 0)

-- The bytes that the calls of `send` say they took.
unfoldable pub all_taken : List SendResult → ℕ
all_taken [] = 0
all_taken (sent n ∷ answers) = n + all_taken answers
all_taken (would_block ∷ answers) = all_taken answers
all_taken (failed ∷ answers) = all_taken answers

-- Why the loop ended, by its result, what is left of the queue, the answers that the calls which took
-- bytes have left, and the answers that are left in the end.
pub data Ending : Round → List ℕ → List SendResult → List SendResult → Type 0 where
  emptied : (answers : List SendResult) → Ending again [] answers answers
  waits :
      (b : ℕ) (left : List ℕ) (answers : List SendResult)
      → next_answer answers ≡ would_block
      → Ending blocked (b ∷ left) answers (other_answers answers)
  gives_up :
      (b : ℕ) (left : List ℕ) (answers : List SendResult)
      → GivesUp (next_answer answers)
      → Ending broken (b ∷ left) answers (other_answers answers)

-- What became of a queue. The calls of `send` up to the one that ended the loop each took bytes, and
-- what they took, and no more than there was, went from the queue's front and from the total.
pub record Flushed (data_channel : Bool) (w : Wire) (r : Round × Wire) : Type 0 where
  pub calls : List SendResult
  pub later : List SendResult
  pub made : w.answers ≡ calls ++ later
  pub took : All TakesBytes calls
  pub sent_bytes : List ℕ
  pub split : sent_bytes ++ buffer data_channel r.1.client ≡ buffer data_channel w.client
  pub counted : length sent_bytes ≡ min (all_taken calls) (length (buffer data_channel w.client))
  pub total : r.1.global ≡ w.global - length sent_bytes
  pub ended : Ending r.0 (buffer data_channel r.1.client) later r.1.answers

is_empty_inv : (b : List ℕ) → is_empty b ≡ true → b ≡ []
is_empty_inv [] e = refl
is_empty_inv (x ∷ b) e = cc

length_some : (b : List ℕ) → is_empty b ≡ false → 1 ≤ length b
length_some [] e = cc
length_some (x ∷ b) e = omega arith

buffer-with_buffer :
    (data_channel : Bool) (b : List ℕ) (c : ClientSession)
    → buffer data_channel (with_buffer data_channel b c) ≡ b
buffer-with_buffer true b c = refl
buffer-with_buffer false b c = refl

buffer-consume :
    (data_channel : Bool) (count : ℕ) (w : Wire)
    → let b = buffer data_channel w.client in
      buffer data_channel (consume_send_buffer data_channel count w).client
      ≡ drop (min count (length b)) b
unfolding consume_send_buffer
buffer-consume data_channel count w = buffer-with_buffer data_channel _ w.client

some_left : (b : List ℕ) → is_empty b ≡ false → (x : ℕ) × (rest : List ℕ) × (b ≡ x ∷ rest)
some_left [] e = absurd (false_true e)
  where
    false_true : true ≡ false → ⊥
    false_true e = cc
some_left (x ∷ rest) e = (x, rest, refl)

-- With more fuel than the queue has bytes, the loop ends by itself: each call of `send` takes bytes
-- from the front of the queue, until nothing is left, a call asks to wait or a call fails or takes
-- nothing, and the result says which. The total counts off what was sent.
pub flush_loop_lem :
    (fuel : ℕ) (data_channel : Bool) (w : Wire)
    → length (buffer data_channel w.client) < fuel
    → Flushed data_channel w (flush_loop fuel data_channel w)
unfolding flush_loop consume_send_buffer all_taken
flush_loop_lem zero data_channel w h = absurd (omega arith)
flush_loop_lem (suc fuel) data_channel w h =
    elim (Bool-cases (is_empty (buffer data_channel w.client))) [
      | inl done ↦ rw done (finished w (is_empty_inv _ done))
      | inr more ↦
          rw more
            (round (λ w''. flush_loop_lem fuel data_channel w'') w.answers refl (some_left _ more))
    ]
  where
    finished : (w : Wire) → buffer data_channel w.client ≡ [] → Flushed data_channel w (again, w)
    finished w none_left = record {
      calls = [];
      later = w.answers;
      made = refl;
      took = tt;
      sent_bytes = [];
      split = refl;
      counted = omega arith;
      total = omega arith;
      ended = subst (λ b. Ending again b w.answers w.answers) (sym none_left) (emptied w.answers);
    }

    stop :
        (r : Round) (answers : List SendResult)
        → w.answers ≡ answers
        → Ending r (buffer data_channel w.client) answers (other_answers answers)
        → Flushed data_channel w (r, record w { answers = other_answers answers })
    stop r answers e ended = record {
      calls = [];
      later = answers;
      made = e;
      took = tt;
      sent_bytes = [];
      split = refl;
      counted = omega arith;
      total = omega arith;
      ended = ended;
    }

    next : List SendResult → ℕ → Wire
    next answers n = consume_send_buffer data_channel n (record w { answers = answers })

    round :
        ((w'' : Wire)
          → length (buffer data_channel w''.client) < fuel
          → Flushed data_channel w'' (flush_loop fuel data_channel w''))
        → (answers : List SendResult) → w.answers ≡ answers
        → (x : ℕ) × (rest : List ℕ) × (buffer data_channel w.client ≡ x ∷ rest)
        → Flushed data_channel w (elim (round_of (next_answer answers)) [
          | again ↦
              flush_loop fuel data_channel
                (next (other_answers answers) (taken (next_answer answers)))
          | blocked ↦ (blocked, record w { answers = other_answers answers })
          | broken ↦ (broken, record w { answers = other_answers answers })
        ])
    round later [] e (x, rest, busy) =
        stop blocked [] e (subst (λ b. Ending blocked b [] []) (sym busy) (waits x rest [] refl))
    round later (would_block ∷ more) e (x, rest, busy) =
        stop blocked _ e
          (subst (λ b. Ending blocked b (would_block ∷ more) more) (sym busy) (waits x rest _ refl))
    round later (failed ∷ more) e (x, rest, busy) = stop broken _ e (
        subst (λ b. Ending broken b (failed ∷ more) more) (sym busy) (gives_up x rest _ (inl refl)))
    round later (sent zero ∷ more) e (x, rest, busy) = stop broken _ e (
        subst (λ b. Ending broken b (sent 0 ∷ more) more) (sym busy) (gives_up x rest _ (inr refl)))
    round later (sent (suc n) ∷ more) e (x, rest, busy) =
        let b = buffer data_channel w.client in
        let k = min (suc n) (length b) in
        let left = buffer-consume data_channel (suc n) (record w { answers = more }) in
        let size_left = ap length left ∙ length-drop k b in
        let size_b = ap length busy in
        let after = next more (suc n) in
        let f = later after (omega (arith, h, size_b, size_left)) in
        let gone : after.global ≡ w.global - k = refl in
        let front = length-take k b (omega arith) in
        record {
          calls = sent (suc n) ∷ f.calls;
          later = f.later;
          made = e ∙ ap (◌∷◌ (sent (suc n))) f.made;
          took = ((n, refl), f.took);
          sent_bytes = take k b ++ f.sent_bytes;
          split =
              append_assoc (take k b) f.sent_bytes _
              ∙ ap (λ l. take k b ++ l) (f.split ∙ left)
              ∙ take-append-drop k b;
          counted =
              omega (arith, length-append (take k b) f.sent_bytes, front, f.counted, size_left);
          total = omega (arith, length-append (take k b) f.sent_bytes, front, f.total, gone);
          ended = f.ended;
        }
