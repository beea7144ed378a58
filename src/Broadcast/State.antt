-- ===== src/Broadcast/State.antt =====
-- The state of BroadcastProcess, and the operations on its parts.
use distsys_course_work.Prelude.{
  ℕ, ◌+◌, ◌≡◌, ◌↔◌, String, Bool, true, false, ◌&&◌, none, some, List, [], ◌∷◌, Eq, nat_same,
  nat_eq, text_eq, leb, arith,
}
use distsys_course_work.Prelude.Dict
use distsys_course_work.Prelude.HashSet
use distsys_course_work.Runtime.{Message, Context, Result, ok, raise, key_error, index_error}

-- (sender, counter)
abbrev pub MessageHash : Type 0
MessageHash = ℕ × ℕ

abbrev pub hash_same : MessageHash → MessageHash → Bool
hash_same (a, b) (c, d) = nat_same a c && nat_same b d

pub hash_same_iff : (a b : MessageHash) → (hash_same a b ≡ true) ↔ (a ≡ b)
hash_same_iff (a, b) (c, d) = ground arith

instance abbrev pub hash_eq : Eq MessageHash
hash_eq = record { same = hash_same; same_iff = hash_same_iff }

-- The keys of a BCAST message.
pub record Bcast (Text : Type 0) : Type 0 where
  pub text : Text
  pub sender : ℕ
  pub counter : ℕ
  pub state : List ℕ

pub record BroadcastProcess (Text : Type 0) : Type 0 where
  pub processes : List (String × ℕ)
  pub id : ℕ
  pub counter : ℕ
  pub state : List ℕ
  pub messages_deliver : List MessageHash
  pub messages_buffer : List (MessageHash × Message (Bcast Text))
  pub messages_broadcasters : List (MessageHash × List ℕ)

-- {processes[id]: id for id in range(len(processes))}
unfoldable pub number : ℕ → List String → List (String × ℕ) → List (String × ℕ)
number i [] numbered = numbered
number i (name ∷ names) numbered = number (i + 1) names (Dict.insert name i numbered)

-- [0 for _ in range(len(processes))]
abbrev pub no_messages : List String → List ℕ
no_messages [] = []
no_messages (name ∷ names) = 0 ∷ no_messages names

unfoldable pub process_id : String → List (String × ℕ) → Result ℕ
process_id name processes = elim (Dict.lookup name processes) [
  | none ↦ raise key_error
  | some i ↦ ok i
]

abbrev pub Sent : Type 0 → Type 0
Sent Text = Context (Bcast Text) Text String

-- all(state[i] <= self._state[i] for i in range(len(self._state))), with the message's list first
unfoldable pub all_le : List ℕ → List ℕ → Result Bool
all_le state [] = ok true
all_le [] (o ∷ own) = raise index_error
all_le (s ∷ state) (o ∷ own) = elim (leb s o) [ true ↦ all_le state own | false ↦ ok false ]

-- for message_hash in delivered: self._messages_buffer.pop(message_hash)
unfoldable pub pop_all {κ} :
    {V : Type κ} → List MessageHash → List (MessageHash × V) → Result (List (MessageHash × V))
pop_all [] buffer = ok buffer
pop_all (h ∷ hs) buffer = elim (Dict.has h buffer) [
  | false ↦ raise key_error
  | true ↦ pop_all hs (Dict.remove h buffer)
]

-- self._messages_broadcasters[h], of a defaultdict of sets
unfoldable pub broadcasters : MessageHash → List (MessageHash × List ℕ) → List ℕ
broadcasters h known = elim (Dict.lookup h known) [ none ↦ [] | some ids ↦ ids ]

unfoldable pub add_broadcaster :
    MessageHash → ℕ → List (MessageHash × List ℕ) → List (MessageHash × List ℕ)
unfolding broadcasters
add_broadcaster h i known = Dict.insert h (HashSet.add i (broadcasters h known)) known
