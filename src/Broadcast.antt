-- ===== src/Broadcast.antt =====
-- homework/04-broadcast/solution.py: BroadcastProcess. A message other than BCAST has no type of
-- its own; the callbacks test the text.
pub mod State
pub mod Causality
pub mod Deliver
pub mod Popping
pub mod Rounds
pub mod Arrival
pub mod History
use distsys_course_work.Prelude.{
  ℕ, zero, suc, ◌+◌, ◌*◌, ◌<◌, ◌≡◌, refl, ◌↔◌, String, Bool, true, false, not, ◌&&◌, Option, none,
  some, List, [], ◌∷◌, ◌++◌, Eq, nat_same, nat_eq, text_eq, ◌==◌, if◌then◌else◌, leb, length, arith,
}
use distsys_course_work.Prelude.Dict
use distsys_course_work.Prelude.HashSet
use distsys_course_work.Runtime.{
  Message, Context, Result, ok, raise, key_error, index_error, ◌>>=◌, send, send_local, Process,
}
use distsys_course_work.Runtime.Items.{item, set_item}
use distsys_course_work.Runtime.Loop.{while}
use distsys_course_work.Broadcast.State.{
  MessageHash, hash_eq, Bcast, BroadcastProcess, number, no_messages, process_id, Sent, all_le,
  pop_all, broadcasters, add_broadcaster,
}

module _ {Text : Type 0} where
  unfoldable pub init : String → List String → Result (BroadcastProcess Text)
  unfolding process_id number
  init proc_id processes = process_id proc_id (number 0 processes []) >>= λ id. ok (record {
    processes = number 0 processes [];
    id = id;
    counter = 0;
    state = no_messages processes;
    messages_deliver = [];
    messages_buffer = [];
    messages_broadcasters = [];
  })

  unfoldable pub best_effort_broadcast :
      List (String × ℕ) → Message (Bcast Text) → Sent Text → Result (Sent Text)
  unfolding send
  best_effort_broadcast [] msg ctx = ok ctx
  best_effort_broadcast ((proc, i) ∷ processes) msg ctx =
      send msg proc ctx >>= λ ctx'. best_effort_broadcast processes msg ctx'

  unfoldable pub on_local_message :
      BroadcastProcess Text → Message Text → Sent Text → Result (BroadcastProcess Text × Sent Text)
  unfolding best_effort_broadcast
  on_local_message self msg ctx = elim (msg.type == "SEND") [
    | false ↦ ok (self, ctx)
    | true ↦
        best_effort_broadcast self.processes
          (record {
            type = "BCAST";
            body = record {
              text = msg.body;
              sender = self.id;
              counter = self.counter;
              state = self.state;
            };
          })
          ctx
        >>= λ ctx'. ok (record self { counter = self.counter + 1 }, ctx')
  ]

  abbrev pub message_hash : Message (Bcast Text) → MessageHash
  message_hash msg = (msg.body.sender, msg.body.counter)

  unfoldable pub is_casually_ordered : BroadcastProcess Text → Message (Bcast Text) → Result Bool
  unfolding all_le
  is_casually_ordered self msg = item self.state msg.body.sender >>= λ next.
      elim (msg.body.counter == next) [ true ↦ all_le msg.body.state self.state | false ↦ ok false ]

  unfoldable pub deliver_message :
      BroadcastProcess Text
      → Message (Bcast Text)
      → Sent Text
      → Result (BroadcastProcess Text × Sent Text)
  unfolding send_local
  deliver_message self msg ctx =
      set_item msg.body.sender (msg.body.counter + 1) self.state >>= λ state.
      elim (Dict.has (message_hash msg) self.messages_broadcasters) [
        | false ↦ raise key_error
        | true ↦ send_local (record { type = "DELIVER"; body = msg.body.text }) ctx >>= λ ctx'. ok (
          record self {
            state = state;
            messages_deliver = HashSet.add (message_hash msg) self.messages_deliver;
            messages_broadcasters = Dict.remove (message_hash msg) self.messages_broadcasters;
          },
          ctx',
        )
      ]

  -- The loop over the items of the buffer: the hashes delivered, and whether there are any.
  unfoldable pub deliver_round :
      List (MessageHash × Message (Bcast Text))
      → BroadcastProcess Text
      → Sent Text
      → Result (BroadcastProcess Text × Sent Text × List MessageHash × Bool)
  unfolding is_casually_ordered deliver_message
  deliver_round [] self ctx = ok (self, ctx, [], false)
  deliver_round ((h, msg) ∷ items) self ctx = is_casually_ordered self msg >>= λ ordered.
      elim ordered [
        | false ↦ deliver_round items self ctx
        | true ↦ deliver_message self msg ctx >>= λ (self', ctx').
            deliver_round items self' ctx' >>= λ (self'', ctx'', delivered, is_update).
            ok (self'', ctx'', h ∷ delivered, true)
      ]

  -- The test and the body of the loop of `update_deliver`.
  abbrev pub is_updated : BroadcastProcess Text × Sent Text × Bool → Bool
  is_updated (self, ctx, is_update) = is_update

  unfoldable pub update_step :
      BroadcastProcess Text × Sent Text × Bool → Result (BroadcastProcess Text × Sent Text × Bool)
  unfolding deliver_round pop_all
  update_step (self, ctx, is_update) =
      deliver_round self.messages_buffer self ctx >>= λ (self', ctx', delivered, is_update').
      pop_all delivered self'.messages_buffer >>= λ buffer.
      ok (record self' { messages_buffer = buffer }, ctx', is_update')

  -- Each round but the last takes a message out of the buffer, so this fuel is enough.
  unfoldable pub update_deliver :
      BroadcastProcess Text → Sent Text → Result (BroadcastProcess Text × Sent Text)
  unfolding update_step while
  update_deliver self ctx =
      while (suc (length self.messages_buffer)) is_updated update_step (self, ctx, true)
      >>= λ (self', ctx', is_update). ok (self', ctx')

  -- The first broadcast of a message that others have sent.
  unfoldable pub relay :
      BroadcastProcess Text
      → Message (Bcast Text)
      → Sent Text
      → Result (BroadcastProcess Text × Sent Text)
  unfolding best_effort_broadcast add_broadcaster
  relay self msg ctx =
      elim (HashSet.contains self.id (broadcasters (message_hash msg) self.messages_broadcasters)) [
        | true ↦ ok (self, ctx)
        | false ↦ best_effort_broadcast self.processes msg ctx >>= λ ctx'. ok (
          record self {
            messages_broadcasters =
                add_broadcaster (message_hash msg) self.id self.messages_broadcasters;
          },
          ctx',
        )
      ]

  unfoldable pub deliver_or_buffer :
      BroadcastProcess Text
      → Message (Bcast Text)
      → Sent Text
      → Result (BroadcastProcess Text × Sent Text)
  unfolding is_casually_ordered deliver_message update_deliver
  deliver_or_buffer self msg ctx = is_casually_ordered self msg >>= λ ordered. elim ordered [
    | true ↦ deliver_message self msg ctx >>= λ (self', ctx'). update_deliver self' ctx'
    | false ↦ ok (
      record self { messages_buffer = Dict.insert (message_hash msg) msg self.messages_buffer },
      ctx,
    )
  ]

  -- Whether a message is new and at least half of the processes have broadcast it.
  unfoldable pub is_deliverable : BroadcastProcess Text → Message (Bcast Text) → Bool
  is_deliverable self msg =
      not (HashSet.contains (message_hash msg) self.messages_deliver)
      && leb (length self.processes)
          (length (broadcasters (message_hash msg) self.messages_broadcasters) * 2)

  unfoldable pub on_message :
      BroadcastProcess Text
      → Message (Bcast Text)
      → String
      → Sent Text
      → Result (BroadcastProcess Text × Sent Text)
  unfolding process_id relay deliver_or_buffer
  on_message self msg from ctx = elim (msg.type == "BCAST") [
    | false ↦ ok (self, ctx)
    | true ↦ process_id from self.processes >>= λ i.
        relay
          (record self {
            messages_broadcasters = add_broadcaster (message_hash msg) i self.messages_broadcasters;
          })
          msg ctx
        >>= λ (self', ctx'). elim (is_deliverable self' msg) [
          | true ↦ deliver_or_buffer self' msg ctx'
          | false ↦ ok (self', ctx')
        ]
  ]

  abbrev pub process : Process (BroadcastProcess Text) Text (Bcast Text) (Bcast Text) Text String
  process = record {
    on_local_message = on_local_message;
    on_message = on_message;
    on_timer = λ self name ctx. ok (self, ctx);
  }
