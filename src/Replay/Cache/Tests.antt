-- ===== src/Replay/Cache/Tests.antt =====
-- Runs of the replay cache, and its theorems at concrete inputs.
use h3_protocol.Prelude.Int.{pos, finite, add_number, ◌+ℤ◌}
use h3_protocol.Prelude.Map
use h3_protocol.Prelude.Texts.{Text, codes}
use mathlib.Core.List.{Perm}
use h3_protocol.Prelude.Arrays.{get_or}
use h3_protocol.Prelude.{
  some, ℕ, zero, suc, ◌≤◌, ◌+◌, ◌≡◌, refl, none, [], ◌∷◌, arith, if◌then◌else◌,
}
use h3_protocol.Envelope.{ProtocolEnvelope, task}
use h3_protocol.Replay.Heap
use h3_protocol.Replay.Heap.{ExpiryEntry}
use h3_protocol.Replay.Heap.Order.{IsHeap}
use h3_protocol.Replay.Heap.Laws.{Popped, push_correct, pop_correct}
use h3_protocol.Replay.Cache.{
  ReplayCache, empty, ok, replay_detected, prune_loop, prune, reserve, is_live, admit, expires_at,
  consume,
}
use h3_protocol.Replay.Cache.Key.{
  make_key, encode_uri_component, encode_point, is_unreserved, utf8, percent_all, percent,
  hex_digit,
}
use h3_protocol.Replay.Cache.Key.Injective.{make_key-injective}
use h3_protocol.Replay.Cache.Reject.{IsSound, empty-IsSound, consume-IsSound, consume_decision}
use h3_protocol.Replay.Cache.Trace.{run, accepted_once}

abbrev envelope : Text → ℕ → ProtocolEnvelope
envelope nonce t = record {
  header = record {
    version = codes "7h3/0.1";
    message_id = codes "m";
    timestamp_ms = finite (pos t);
    ttl_ms = finite (pos 60);
    sender = codes "a|b";
    recipient = none;
    nonce = nonce;
  };
  body = record { intent = task; content = codes "hi"; capability = none; correlation_id = none };
  signature = none;
}

abbrev first : ProtocolEnvelope
first = envelope (codes "n1") 1000

abbrev second : ProtocolEnvelope
second = envelope (codes "n2") 990

-- The same identifiers at another time.
abbrev resent : ProtocolEnvelope
resent = envelope (codes "n1") 995

-- The separator inside a field is escaped.
make_key_runs : make_key first ≡ codes "a%7Cb|m|n1"
unfolding make_key encode_uri_component encode_point is_unreserved utf8 percent_all percent
    hex_digit
make_key_runs = refl

abbrev started : ReplayCache
started = (consume (empty 1) first (pos 1010)).0

abbrev waiting : ReplayCache
waiting = (consume (empty 2) first (pos 1010)).0

first_accepted : (consume (empty 2) first (pos 1010)).1 ≡ ok
unfolding consume prune prune_loop Heap.peek empty Map.get is_live admit expires_at add_number ◌+ℤ◌
first_accepted = refl

waiting_room : Map.size waiting.entries + 1 ≤ waiting.max_entries
unfolding consume prune prune_loop Heap.peek empty Map.get is_live admit expires_at add_number ◌+ℤ◌
    reserve Map.set
waiting_room = omega arith

first_expiry : expires_at first ≡ finite (pos 1060)
unfolding expires_at add_number ◌+ℤ◌
first_expiry = refl

accepted_once_example :
    (consume (run waiting ((second, pos 1020) ∷ [])) first (pos 1040)).1 ≡ replay_detected
accepted_once_example =
    accepted_once (empty 2) first first (pos 1010) (pos 1040) (pos 1060) ((second, pos 1020) ∷ [])
      (empty-IsSound 2 (omega arith)) first_expiry refl first_accepted (omega arith) waiting_room
      (omega arith)

consume_decision_example : (consume (empty 2) first (pos 1010)).1 ≡ (
    if is_live (Map.get (make_key first) (empty 2).entries) (pos 1010) then replay_detected else ok)
consume_decision_example =
    consume_decision (empty 2) first (pos 1010) (pos 1060) (empty-IsSound 2 (omega arith))
      first_expiry

consume-IsSound_example : IsSound waiting
consume-IsSound_example = consume-IsSound (empty 2) first (pos 1010) (empty-IsSound 2 (omega arith))

started-IsSound : IsSound started
started-IsSound = consume-IsSound (empty 1) first (pos 1010) (empty-IsSound 1 (omega arith))

started_full : started.max_entries ≤ Map.size started.entries
unfolding consume prune prune_loop Heap.peek empty Map.get is_live admit expires_at add_number ◌+ℤ◌
    reserve Map.set
started_full = omega arith

make_key-injective_example :
    (resent.header.sender ≡ first.header.sender)
    × (resent.header.message_id ≡ first.header.message_id)
    × (resent.header.nonce ≡ first.header.nonce)
unfolding make_key
make_key-injective_example = make_key-injective resent first (omega arith) (omega arith) refl

abbrev soon : ExpiryEntry
soon = record { key = codes "s"; expires_at = pos 5 }

abbrev late : ExpiryEntry
late = record { key = codes "l"; expires_at = pos 9 }

two_items-IsHeap : IsHeap (soon ∷ late ∷ [])
unfolding get_or
two_items-IsHeap (suc zero) p q = omega arith
two_items-IsHeap c p q = absurd (omega arith)

push_correct_example :
    IsHeap (Heap.push (soon ∷ late ∷ []) soon)
    × Perm (Heap.push (soon ∷ late ∷ []) soon) (soon ∷ soon ∷ late ∷ [])
push_correct_example = push_correct (soon ∷ late ∷ []) soon two_items-IsHeap

pop_correct_example :
    ((Heap.pop (soon ∷ late ∷ [])).0 ≡ some soon)
    × Popped (soon ∷ late ∷ []) soon (Heap.pop (soon ∷ late ∷ [])).1
pop_correct_example = pop_correct soon (late ∷ []) two_items-IsHeap
