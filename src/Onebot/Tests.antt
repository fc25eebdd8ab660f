-- ===== src/Onebot/Tests.antt =====
-- Runs of the CQ codes, and each theorem about them at a concrete input.
use anybot.Base.{
  ℤ, pos, negsuc, zero, suc, [], is_empty, ap, Text, ℕ, some, false, ◌*◌, ◌≤◌, length,
}
use anybot.Core.Message.{Value, other}
use anybot.Core.Event.{conversation_id}
use anybot.Core.Event.Keys.{NoColon}
use anybot.Onebot.Event.{OnebotEvent, normalize, id_string}
use anybot.Onebot.Event.Conversations.{WritesInts, normalize-conversation_id}
use anybot.Base.{◌≡◌, refl, codes}
use anybot.Onebot.Socket.{
  SocketPeer, new_socket_peer, register, set_phase, waiting, complete_pending, response, Reachable,
  start, next, call, wrote, frame, returned, receive,
}
use anybot.Onebot.Socket.Answers.{CallIsFine, Reachable-CallIsFine}
use anybot.Base.{text_before, ◌≡◌, refl, List, [], ◌∷◌, map, arith, codes}
use anybot.Base.{lookup, insert, delete, ◌==◌}
use anybot.Core.Message.{text, raw}
use anybot.Core.Rules.{sprint}
use anybot.Onebot.Message.{to_wire, to_wire_chain}
use anybot.Onebot.Cq.{cq_string, parse_cq}
use anybot.Onebot.Cq.Pieces.{Piece, words, mention, code, segment_of}
use anybot.Onebot.Cq.RoundTrip.{parse_cq-cq_string}
use anybot.Onebot.Cq.Fuel.{Parses, parse_cq-Parses}

abbrev picture : Piece
picture = code (codes "image") ((codes "cache", codes "0") ∷ (codes "file", codes "a,b&c") ∷ [])

abbrev greeting : List Piece
greeting = words b'h' (codes "i [x]") ∷ mention (codes "42") ∷ picture ∷ []

greeting_text :
    cq_string (map segment_of greeting)
    ≡ codes "hi &#91;x&#93;[CQ:at,qq=42][CQ:image,cache=0,file=a&#44;b&amp;c]"
unfolding cq_string lookup ◌==◌ text raw insert delete to_wire_chain to_wire sprint
greeting_text = refl

parse_cq-cq_string_example :
    parse_cq (cq_string (map segment_of greeting)) ≡ map segment_of greeting
unfolding ◌==◌ text_before
parse_cq-cq_string_example =
    parse_cq-cq_string greeting
      (
        tt,
        (
          tt,
          (
            (
              refl,
              refl,
              refl,
              refl,
              refl,
              ((refl, refl, refl, refl), ((refl, refl, refl, refl), tt)),
              (refl, (refl, tt)),
            ),
            tt,
          ),
        ),
      )
      tt

parse_cq-Parses_example :
    (k : ℕ) × (5 * k ≤ length (codes "a[CQ:]b[CQ:face][CQ:at"))
    × Parses k (codes "a[CQ:]b[CQ:face][CQ:at") [] (parse_cq (codes "a[CQ:]b[CQ:face][CQ:at"))
parse_cq-Parses_example = parse_cq-Parses (codes "a[CQ:]b[CQ:face][CQ:at")

-- Two calls, of which the second is answered first.
abbrev two_calls : SocketPeer
two_calls = set_phase 2 waiting (register (register new_socket_peer))

abbrev second_answered : SocketPeer
second_answered =
    set_phase 2 (returned (response 2 (codes "ok")))
      (complete_pending 2 (response 2 (codes "ok")) two_calls)

second_answered-Reachable : Reachable second_answered
second_answered-Reachable =
    next (next (next (next (next start call) call) (wrote 2 refl)) (frame 2 (codes "ok")))
      (receive 2 (response 2 (codes "ok")) refl refl)

Reachable-CallIsFine_example :
    CallIsFine 1 (second_answered.phases 1) (second_answered.pending 1) (second_answered.channels 1)
Reachable-CallIsFine_example = Reachable-CallIsFine second_answered 1 second_answered-Reachable

-- Numbers as strokes behind their sign.
abbrev strokes : ℕ → Text
strokes zero = []
strokes (suc n) = b'1' ∷ strokes n

abbrev show_strokes : ℤ → Text
show_strokes (pos n) = b'+' ∷ strokes n
show_strokes (negsuc n) = b'-' ∷ strokes n

strokes-injective : (m n : ℕ) → strokes m ≡ strokes n → m ≡ n
strokes-injective zero zero e = refl
strokes-injective zero (suc n) e = absurd (ground (arith, e))
strokes-injective (suc m) zero e = absurd (ground (arith, e))
strokes-injective (suc m) (suc n) e = ap suc (strokes-injective m n (ground (arith, e)))

show_strokes-injective : (a b : ℤ) → show_strokes a ≡ show_strokes b → a ≡ b
show_strokes-injective (pos m) (pos n) e = ap pos (strokes-injective m n (ground (arith, e)))
show_strokes-injective (negsuc m) (negsuc n) e =
    ap negsuc (strokes-injective m n (ground (arith, e)))
show_strokes-injective (pos m) (negsuc n) e = absurd (ground (arith, e))
show_strokes-injective (negsuc m) (pos n) e = absurd (ground (arith, e))

strokes-NoColon : (n : ℕ) → NoColon (strokes n)
strokes-NoColon zero = tt
strokes-NoColon (suc n) = (ground arith, strokes-NoColon n)

show_strokes-NoColon : (a : ℤ) → NoColon (show_strokes a)
show_strokes-NoColon (pos n) = (ground arith, strokes-NoColon n)
show_strokes-NoColon (negsuc n) = (ground arith, strokes-NoColon n)

show_strokes-given : (a : ℤ) → is_empty (show_strokes a) ≡ false
show_strokes-given (pos n) = refl
show_strokes-given (negsuc n) = refl

show_strokes-WritesInts : WritesInts show_strokes
show_strokes-WritesInts = (show_strokes-injective, show_strokes-NoColon, show_strokes-given)

abbrev hello_event : OnebotEvent
hello_event = record {
  self_id = pos 3;
  post_type = codes "message";
  sub_type = [];
  raw_message = codes "hello";
  message_type = codes "group";
  message_id = pos 9;
  user_id = pos 2;
  group_id = pos 1;
  chain = [];
  notice_type = [];
  request_type = [];
  meta_event_type = [];
  raw_json = [];
}

abbrev notice_event : OnebotEvent
notice_event = record hello_event {
  post_type = codes "notice";
  raw_message = [];
  message_id = pos 0;
}

abbrev plain_value : OnebotEvent → Value
plain_value e = other e.raw_message

one_conversation :
    conversation_id (some (normalize show_strokes plain_value hello_event))
    ≡ conversation_id (some (normalize show_strokes plain_value notice_event))
unfolding normalize id_string conversation_id
one_conversation = refl

normalize-conversation_id_example :
    (hello_event.group_id ≡ notice_event.group_id) × (hello_event.user_id ≡ notice_event.user_id)
normalize-conversation_id_example =
    normalize-conversation_id show_strokes plain_value show_strokes-WritesInts hello_event
      notice_event refl refl one_conversation
